-- ===== src/NatTable/Flows.antt =====
-- src/core/pmx_nat.c: what the operations do to a flow.
use proxi_might.Prelude.{
  ℕ, ◌+◌, ◌≡◌, ◌≢◌, refl, sym, ap, ◌∙◌, ◌↔◌, true, false, ◌||◌, none, some, List, ◌==◌,
  if◌then◌else◌, get_elem?, set, arith, inl, inr, Bool-cases, Option-cases, lt_of_get_elem?,
}
use mathlib.Core.Path.{subst}
use proxi_might.Status.{Status, ok, err_state}
use proxi_might.NatTable.{
  Slot, Table, Choice, free, reclaim, holds, expired, find_slot, fresh_slot, choose, place, add,
  hit, find, mark_closed, at_slot,
}
use proxi_might.NatTable.Slots.{
  lookup, find_slot-none, find_slot-some, lookup-find_slot, lookup-set_absent, lookup-set_found,
  lookup-set_other, lookup-holds, holds-ne, IsReclaimable, IsChosen,
}
use proxi_might.NatTable.Choosing.{AllLive, choose-IsChosen, choose-none_iff}

-- The result of `add` on a port that is not 0, by what the table had.
pub data Added (n : Table) (p : ℕ) (s : Slot) (now_ms : ℕ) : Table × Status → Type 0 where
  replaced :
      (i : ℕ)
      → find_slot n.slots p ≡ some i
      → Added n p s now_ms (record n { slots = set n.slots i s }, ok)
  taken :
      (i : ℕ) (old : Slot)
      → find_slot n.slots p ≡ none
      → get_elem? n.slots i ≡ some old
      → old.used ≡ false
      → Added n p s now_ms (record n { slots = set n.slots i s; count = n.count + 1 }, ok)
  reclaimed :
      (i : ℕ) (old : Slot)
      → find_slot n.slots p ≡ none
      → get_elem? n.slots i ≡ some old
      → IsReclaimable n.ttl_ms now_ms old
      → old.used ≡ true
      → Added n p s now_ms (record n { slots = set n.slots i s }, ok)
  full :
      find_slot n.slots p ≡ none
      → AllLive n.ttl_ms now_ms n.slots
      → Added n p s now_ms (n, err_state)

place-Added :
    (n : Table) (p : ℕ) (s : Slot) (now_ms : ℕ) (c : Choice)
    → find_slot n.slots p ≡ none
    → IsChosen n.ttl_ms now_ms n.slots c
    → (c ≡ reclaim none → AllLive n.ttl_ms now_ms n.slots)
    → Added n p s now_ms (place n s c)
unfolding place
place-Added n p s now_ms (free i) f (old, at, u) h = taken i old f at u
place-Added n p s now_ms (reclaim none) f g h = full f (h refl)
place-Added n p s now_ms (reclaim (some (i, c))) f (old, at, r, u) h = reclaimed i old f at r u

from_start :
    (ss : List Slot) (k : ℕ) (s : Slot) → get_elem? ss k ≡ some s → get_elem? ss (0 + k) ≡ some s
from_start ss k s h = let e : 0 + k ≡ k = omega arith in rw e h

pub add-Added :
    (n : Table) (src_addr p dst_addr dst_port now_ms : ℕ)
    → p ≢ 0
    → Added n p
        (fresh_slot src_addr p dst_addr dst_port now_ms)
        now_ms
        (add n src_addr p dst_addr dst_port now_ms)
unfolding add
add-Added n src_addr p dst_addr dst_port now_ms hp =
    let e : (p == 0) ≡ false = ground arith in
    let s = fresh_slot src_addr p dst_addr dst_port now_ms in
    elim (Option-cases (find_slot n.slots p)) [
      | inl f ↦
          rw (e, f)
            (place-Added n p s now_ms (choose n.ttl_ms now_ms n.slots 0 none) f
              (choose-IsChosen n.ttl_ms now_ms n.slots n.slots 0 none (from_start n.slots) tt)
              (choose-none_iff n.ttl_ms now_ms n.slots 0).0)
      | inr (i, f) ↦ rw (e, f) (replaced i f)
    ]

-- The flow is in the table and has neither expired nor been closed.
pub record IsLive (n : Table) (q now_ms : ℕ) (u : Slot) : Type 0 where
  pub present : lookup n.slots q ≡ some u
  pub fresh : expired n.ttl_ms u now_ms ≡ false
  pub open_flow : u.closed ≡ false

fresh_slot-holds : (a p d dp now_ms : ℕ) → holds (fresh_slot a p d dp now_ms) p ≡ true
fresh_slot-holds a p d dp now_ms = ground arith

find_slot-absent : (ss : List Slot) (p : ℕ) → lookup ss p ≡ none → find_slot ss p ≡ none
find_slot-absent ss p h = elim (Option-cases (find_slot ss p)) [
  | inl f ↦ f
  | inr (i, f) ↦ let (s, at, seen) = find_slot-some ss p i f in absurd (ground arith)
]

module _ (n : Table) (a p d dp now_ms : ℕ) where
  Added-present :
      (r : Table × Status)
      → Added n p (fresh_slot a p d dp now_ms) now_ms r
      → r.1 ≡ ok
      → lookup r.0.slots p ≡ some (fresh_slot a p d dp now_ms)
  Added-present _ (replaced i f) h =
      lookup-set_found n.slots i p (fresh_slot a p d dp now_ms) f (fresh_slot-holds a p d dp now_ms)
  Added-present _ (taken i old f at u) h =
      lookup-set_absent n.slots i p (fresh_slot a p d dp now_ms) (find_slot-none n.slots p f)
        (lt_of_get_elem? n.slots i old at) (fresh_slot-holds a p d dp now_ms)
  Added-present _ (reclaimed i old f at c u) h =
      lookup-set_absent n.slots i p (fresh_slot a p d dp now_ms) (find_slot-none n.slots p f)
        (lt_of_get_elem? n.slots i old at) (fresh_slot-holds a p d dp now_ms)
  Added-present _ (full f l) h = cc

  Added-full :
      (r : Table × Status)
      → Added n p (fresh_slot a p d dp now_ms) now_ms r
      → r.1 ≡ err_state
      → AllLive n.ttl_ms now_ms n.slots
  Added-full _ (replaced i f) h = cc
  Added-full _ (taken i old f at u) h = cc
  Added-full _ (reclaimed i old f at c u) h = cc
  Added-full _ (full f l) h = l

  -- A write over a slot that is not what a lookup of `q` sees keeps the flow of `q`.
  write_keeps :
      (q i : ℕ) (u old : Slot)
      → q ≢ p
      → lookup n.slots q ≡ some u
      → get_elem? n.slots i ≡ some old
      → (lookup n.slots q ≡ some old → ⊥)
      → lookup (set n.slots i (fresh_slot a p d dp now_ms)) q ≡ some u
  write_keeps q i u old ne seen at miss =
      lookup-set_other n.slots i q (fresh_slot a p d dp now_ms) old at
        (holds-ne (fresh_slot a p d dp now_ms) p q (fresh_slot-holds a p d dp now_ms) ne) miss
      ∙ seen

  Added-keeps :
      (q : ℕ) (u : Slot) (r : Table × Status)
      → q ≢ p
      → IsLive n q now_ms u
      → Added n p (fresh_slot a p d dp now_ms) now_ms r
      → lookup r.0.slots q ≡ some u
  Added-keeps q u _ ne v (replaced i f) =
      let (old, at, seen) = find_slot-some n.slots p i f in
      write_keeps q i u old ne v.present at (λ h.
        absurd (ground (arith, lookup-holds n.slots q old h, lookup-holds n.slots p old seen)))
  Added-keeps q u _ ne v (taken i old f at w) =
      write_keeps q i u old ne v.present at
        (λ h. absurd (ground (arith, lookup-holds n.slots q old h)))
  Added-keeps q u _ ne v (reclaimed i old f at c w) =
      write_keeps q i u old ne v.present at (λ h. reclaimable_is_not_live v c (sym h ∙ v.present))
    where
      reclaimable_is_not_live :
          IsLive n q now_ms u → IsReclaimable n.ttl_ms now_ms old → some old ≡ some u → ⊥
      reclaimable_is_not_live v c e =
          let same : old ≡ u = cc in
          let c' : (expired n.ttl_ms u now_ms || u.closed) ≡ true =
            subst (λ (t : Slot). IsReclaimable n.ttl_ms now_ms t) same c in
          absurd (ground arith)
  Added-keeps q u _ ne v (full f l) = v.present

  -- After a successful call of add for a port that is not 0, the slot found for the port is a
  -- fresh one with the destination and the time that were given.
  pub lookup-add :
      p ≢ 0
      → (add n a p d dp now_ms).1 ≡ ok
      → lookup (add n a p d dp now_ms).0.slots p ≡ some (fresh_slot a p d dp now_ms)
  lookup-add hp h = Added-present _ (add-Added n a p d dp now_ms hp) h

  -- Adding a flow for another port leaves the slot of a live flow as it was, whatever the table
  -- holds; both ports are not 0.
  pub add-keeps_live :
      (q : ℕ) (u : Slot)
      → p ≢ 0
      → q ≢ p
      → IsLive n q now_ms u
      → lookup (add n a p d dp now_ms).0.slots q ≡ some u
  add-keeps_live q u hp ne v = Added-keeps q u _ ne v (add-Added n a p d dp now_ms hp)

  -- For a port that is not 0 and is not in the table, adding a flow fails with err_state and
  -- changes nothing exactly if every slot of the table holds a live flow.
  pub add_full_iff :
      p ≢ 0
      → lookup n.slots p ≡ none
      → (add n a p d dp now_ms ≡ (n, err_state)) ↔ AllLive n.ttl_ms now_ms n.slots
  add_full_iff hp h = (
    λ e. Added-full _ (add-Added n a p d dp now_ms hp) (ap (λ (r : Table × Status). r.1) e),
    λ l.
        let e : (p == 0) ≡ false = ground arith in
        let f = find_slot-absent n.slots p h in
        unfold add in rw (e, f, (choose-none_iff n.ttl_ms now_ms n.slots 0).1 l),
  )

pub at_slot_lem {ℓ} :
    {A : Type ℓ} (n : Table) (p i : ℕ) (s : Slot) (d : A) (g : ℕ → Slot → A)
    → find_slot n.slots p ≡ some i
    → get_elem? n.slots i ≡ some s
    → at_slot n p d g ≡ g i s
at_slot_lem n p i s d g f at = rw (f, at_slot) (rw (at, at_slot))

pub at_slot-absent {ℓ} :
    {A : Type ℓ} (n : Table) (p : ℕ) (d : A) (g : ℕ → Slot → A)
    → lookup n.slots p ≡ none
    → at_slot n p d g ≡ d
at_slot-absent n p d g h = rw (find_slot-absent n.slots p h, at_slot)

pub hit-live :
    (n : Table) (i : ℕ) (s : Slot) (now_ms : ℕ)
    → expired n.ttl_ms s now_ms ≡ false
    → s.closed ≡ false
    → hit n i s now_ms
      ≡ (record n { slots = set n.slots i (record s { last_seen_ms = now_ms }) }, some s.e)
unfolding hit
hit-live n i s now_ms hx hc = simp (hx, hc)

entry-hit :
    (n : Table) (i : ℕ) (s : Slot) (now_ms : ℕ)
    → (hit n i s now_ms).1 ≡ (if expired n.ttl_ms s now_ms then none else some s.e)
unfolding hit
entry-hit n i s now_ms = ground arith

-- `find` on a port that the table has.
pub find_lem :
    (n : Table) (p now_ms : ℕ) (s : Slot)
    → p ≢ 0
    → lookup n.slots p ≡ some s
    → (i : ℕ) × (find_slot n.slots p ≡ some i) × (find n p now_ms ≡ hit n i s now_ms)
unfolding find
find_lem n p now_ms s hp h =
    let (i, f, at) = lookup-find_slot n.slots p s h in
    let e : (p == 0) ≡ false = ground arith in
    (i, f, rw e (at_slot_lem n p i s (n, none) (λ i' s'. hit n i' s' now_ms) f at))

-- Looking up a live flow, at a port that is not 0, returns its entry and renews the time at which
-- it was last seen.
pub find-live :
    (n : Table) (p now_ms : ℕ) (s : Slot)
    → p ≢ 0
    → IsLive n p now_ms s
    → ((find n p now_ms).1 ≡ some s.e)
      × (lookup (find n p now_ms).0.slots p ≡ some (record s { last_seen_ms = now_ms }))
find-live n p now_ms s hp v =
    let (i, f, e) = find_lem n p now_ms s hp v.present in
    let held : holds (record s { last_seen_ms = now_ms }) p ≡ true =
      lookup-holds n.slots p s v.present in
    rw (e, hit-live n i s now_ms v.fresh v.open_flow)
      (refl, lookup-set_found n.slots i p (record s { last_seen_ms = now_ms }) f held)

-- Closing a flow does not change what a lookup of its port returns.
pub find-mark_closed :
    (n : Table) (p now_ms : ℕ) → (find (mark_closed n p) p now_ms).1 ≡ (find n p now_ms).1
find-mark_closed n p now_ms = elim (Bool-cases (p == 0)) [
  | inl z ↦ unfold mark_closed in rw z
  | inr nz ↦ elim (Option-cases (lookup n.slots p)) [
    | inl h ↦ unfold mark_closed in rw (nz, at_slot-absent n p n _ h)
    | inr (s, h) ↦
        let (i, f, at) = lookup-find_slot n.slots p s h in
        let s' = record s { closed = true } in
        let n' = record n { slots = set n.slots i s' } in
        let hp : p ≢ 0 = ground arith in
        let marked : mark_closed n p ≡ n' =
          unfold mark_closed in rw (nz, at_slot_lem n p i s n _ f at) in
        let (i', f', e') =
          find_lem n' p now_ms s' hp
            (lookup-set_found n.slots i p s' f (lookup-holds n.slots p s h)) in
        let (i'', f'', e'') = find_lem n p now_ms s hp h in
        rw (marked, e', e'', entry-hit, entry-hit) (unfold expired in refl)
  ]
]
