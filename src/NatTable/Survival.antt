-- ===== src/NatTable/Survival.antt =====
-- src/core/pmx_nat.c: a flow through the traffic of the others.
use proxi_might.Prelude.{
  ℕ, ◌+◌, ◌≤◌, ◌≡◌, ◌≢◌, refl, sym, ◌∙◌, true, false, none, some, List, [], ◌∷◌, ◌==◌,
  if◌then◌else◌, set, arith, inl, inr, Bool-cases, Option-cases,
}
use proxi_might.NatTable.{
  Entry, Slot, Table, zero_slot, holds, expired, find_slot, add, hit, find, mark_closed, remove,
  expire_slots, expire,
}
use proxi_might.NatTable.Slots.{
  lookup, find_slot-some, lookup-find_slot, lookup-set_other, lookup-holds, holds-ne,
}
use proxi_might.NatTable.Flows.{IsLive, add-keeps_live, find-live, at_slot_lem, at_slot-absent}

-- The operations with their arguments, in the order in which they take the mutex.
pub data Op : Type 0 where
  add_op : ℕ → ℕ → ℕ → ℕ → ℕ → Op
  find_op : ℕ → ℕ → Op
  close_op remove_op expire_op : ℕ → Op

unfoldable pub step : Table → Op → Table
step n (add_op a p d dp now_ms) = (add n a p d dp now_ms).0
step n (find_op p now_ms) = (find n p now_ms).0
step n (close_op p) = mark_closed n p
step n (remove_op p) = remove n p
step n (expire_op now_ms) = (expire n now_ms).0

unfoldable pub run : Table → List Op → Table
unfolding step
run n [] = n
run n (o ∷ os) = run (step n o) os

-- Nothing is done to `p` but to look it up, and no clock value is more than `ttl` past its last
-- lookup at `last`.
abbrev pub IsTimely : ℕ → ℕ → ℕ → List Op → Type 0
IsTimely p ttl last [] = Unit
IsTimely p ttl last (add_op a q d dp now_ms ∷ os) =
    (q ≢ p) × (now_ms ≤ last + ttl) × IsTimely p ttl last os
IsTimely p ttl last (find_op q now_ms ∷ os) =
    (now_ms ≤ last + ttl) × IsTimely p ttl (if q == p then now_ms else last) os
IsTimely p ttl last (close_op q ∷ os) = (q ≢ p) × IsTimely p ttl last os
IsTimely p ttl last (remove_op q ∷ os) = (q ≢ p) × IsTimely p ttl last os
IsTimely p ttl last (expire_op now_ms ∷ os) = (now_ms ≤ last + ttl) × IsTimely p ttl last os

-- The flow of `p`, last used at `last`.
pub record HasFlow (p ttl last : ℕ) (e : Entry) (n : Table) : Type 0 where
  pub slot : Slot
  pub present : lookup n.slots p ≡ some slot
  pub open_flow : slot.closed ≡ false
  pub last_seen : slot.last_seen_ms ≡ last
  pub entry : slot.e ≡ e
  pub idle_time : n.ttl_ms ≡ ttl

-- A write to the slot of another port, of a slot that is not for `p`.
write_other :
    (ss : List Slot) (q p i : ℕ) (s' : Slot)
    → q ≢ p
    → find_slot ss q ≡ some i
    → holds s' p ≡ false
    → lookup (set ss i s') p ≡ lookup ss p
write_other ss q p i s' ne f hs =
    let (old, at, seen) = find_slot-some ss q i f in
    lookup-set_other ss i p s' old at hs
      (λ h. absurd (ground (arith, lookup-holds ss p old h, lookup-holds ss q old seen)))

module _ (n : Table) (q p : ℕ) (ne : q ≢ p) where
  held_other : (s : Slot) → holds s q ≡ true → holds s p ≡ false
  held_other s h = holds-ne s q p h (λ e. ne (sym e))

  lookup-find_ne : (now_ms : ℕ) → lookup (find n q now_ms).0.slots p ≡ lookup n.slots p
  unfolding find
  lookup-find_ne now_ms = elim (Bool-cases (q == 0)) [
    | inl z ↦ rw z
    | inr nz ↦ elim (Option-cases (lookup n.slots q)) [
      | inl h ↦ rw (nz, at_slot-absent n q (n, none) (λ i s. hit n i s now_ms) h)
      | inr (s, h) ↦
          let (i, f, at) = lookup-find_slot n.slots q s h in
          let held = lookup-holds n.slots q s h in
          rw (nz, at_slot_lem n q i s (n, none) (λ i s. hit n i s now_ms) f at)
            (ground (
              arith,
              write_other n.slots q p i (record s { last_seen_ms = now_ms }) ne f
                  (held_other s held),
            ))
    ]
  ]

  lookup-mark_closed_ne : lookup (mark_closed n q).slots p ≡ lookup n.slots p
  unfolding mark_closed
  lookup-mark_closed_ne = elim (Bool-cases (q == 0)) [
    | inl z ↦ rw z
    | inr nz ↦ elim (Option-cases (lookup n.slots q)) [
      | inl h ↦ rw (nz, at_slot-absent n q n _ h)
      | inr (s, h) ↦
          let (i, f, at) = lookup-find_slot n.slots q s h in
          rw (nz, at_slot_lem n q i s n _ f at)
            (write_other n.slots q p i (record s { closed = true }) ne f
              (held_other s (lookup-holds n.slots q s h)))
    ]
  ]

  lookup-remove_ne : lookup (remove n q).slots p ≡ lookup n.slots p
  unfolding remove
  lookup-remove_ne = elim (Option-cases (lookup n.slots q)) [
    | inl h ↦ rw (at_slot-absent n q n _ h)
    | inr (s, h) ↦
        let (i, f, at) = lookup-find_slot n.slots q s h in
        rw (at_slot_lem n q i s n _ f at) (write_other n.slots q p i zero_slot ne f refl)
  ]

-- `expire` drops no slot that has not expired.
lookup-expire_slots :
    (ttl now_ms : ℕ) (ss : List Slot) (p : ℕ) (s : Slot)
    → lookup ss p ≡ some s
    → expired ttl s now_ms ≡ false
    → lookup (expire_slots ttl now_ms ss).0 p ≡ some s
unfolding lookup expire_slots
lookup-expire_slots ttl now_ms [] p s h hx = cc
lookup-expire_slots ttl now_ms (t ∷ ss) p s h hx = elim (Bool-cases (holds t p)) [
  | inl held ↦
      let h' : some t ≡ some s = rw held at h in
      let same : t ≡ s = cc in
      let kept : expired ttl t now_ms ≡ false = rw same hx in ground (arith, kept)
  | inr other ↦
      let ih = lookup-expire_slots ttl now_ms ss p s (rw other at h) hx in ground (arith, ih)
]

-- No operation changes the idle time.
ttl-step : (n : Table) (o : Op) → (step n o).ttl_ms ≡ n.ttl_ms
unfolding step
ttl-step n (add_op a p d dp now_ms) = unfold add in ground arith
ttl-step n (find_op p now_ms) = unfold find in ground arith
ttl-step n (close_op p) = unfold mark_closed in ground arith
ttl-step n (remove_op p) = unfold remove in ground arith
ttl-step n (expire_op now_ms) = unfold expire in refl

ttl-find : (n : Table) (p now_ms : ℕ) → (find n p now_ms).0.ttl_ms ≡ n.ttl_ms
unfolding step
ttl-find n p now_ms = ttl-step n (find_op p now_ms)

-- The last lookup of `p` after the operations.
unfoldable pub last_lookup : ℕ → ℕ → List Op → ℕ
last_lookup p last [] = last
last_lookup p last (find_op q now_ms ∷ os) = last_lookup p (if q == p then now_ms else last) os
last_lookup p last (_ ∷ os) = last_lookup p last os

-- Adding a flow for any other port, 0 included, which is refused.
add-keeps_other :
    (n : Table) (a q d dp now_ms p : ℕ) (u : Slot)
    → p ≢ q
    → IsLive n p now_ms u
    → lookup (add n a q d dp now_ms).0.slots p ≡ some u
add-keeps_other n a q d dp now_ms p u ne v = elim (Bool-cases (q == 0)) [
  | inl z ↦ unfold add in rw z v.present
  | inr nz ↦ add-keeps_live n a q d dp now_ms p u (λ e. absurd (ground arith)) ne v
]

module _ (p ttl : ℕ) (e : Entry) (hp : p ≢ 0) where
  -- Until `last + ttl` the flow has not expired.
  HasFlow-IsLive :
      {last : ℕ} {n : Table} (now_ms : ℕ) (v : HasFlow p ttl last e n)
      → now_ms ≤ last + ttl
      → IsLive n p now_ms v.slot
  HasFlow-IsLive now_ms v h = record {
    present = v.present;
    fresh = unfold expired in ground (arith, v.last_seen, v.idle_time);
    open_flow = v.open_flow;
  }

  -- An operation that leaves the lookup of `p` as it was.
  HasFlow-step :
      {last : ℕ} {n : Table} (o : Op) (v : HasFlow p ttl last e n)
      → lookup (step n o).slots p ≡ some v.slot
      → HasFlow p ttl last e (step n o)
  HasFlow-step {n} o v h = record {
    slot = v.slot;
    present = h;
    open_flow = v.open_flow;
    last_seen = v.last_seen;
    entry = v.entry;
    idle_time = ttl-step n o ∙ v.idle_time;
  }

  HasFlow-find :
      {last : ℕ} {n : Table} (now_ms : ℕ)
      → HasFlow p ttl last e n
      → now_ms ≤ last + ttl
      → HasFlow p ttl now_ms e (find n p now_ms).0
  HasFlow-find {n} now_ms v h = record {
    slot = record (v.slot) { last_seen_ms = now_ms };
    present = (find-live n p now_ms v.slot hp (HasFlow-IsLive now_ms v h)).1;
    open_flow = v.open_flow;
    last_seen = refl;
    entry = v.entry;
    idle_time = ttl-find n p now_ms ∙ v.idle_time;
  }

  HasFlow-find_any :
      {last : ℕ} {n : Table} (q now_ms : ℕ)
      → HasFlow p ttl last e n
      → now_ms ≤ last + ttl
      → HasFlow p ttl (if q == p then now_ms else last) e (find n q now_ms).0
  unfolding step
  HasFlow-find_any {n} q now_ms v h = elim (Bool-cases (q == p)) [
    | inl eq ↦ let same : q ≡ p = ground arith in rw eq (rw same (HasFlow-find now_ms v h))
    | inr other ↦
        let ne : q ≢ p = ground arith in
        rw other (HasFlow-step (find_op q now_ms) v (lookup-find_ne n q p ne now_ms ∙ v.present))
  ]

  -- The live flow of a port other than 0 keeps its mapping, last seen at its last lookup, through
  -- any calls on the table that neither add, close nor remove its port and in which no call on
  -- the clock comes later than the expiry time after the flow's last lookup.
  pub run-HasFlow :
      (os : List Op) {last : ℕ} {n : Table}
      → HasFlow p ttl last e n
      → IsTimely p ttl last os
      → HasFlow p ttl (last_lookup p last os) e (run n os)
  unfolding run last_lookup
  run-HasFlow [] v h = v
  run-HasFlow (add_op a q d dp now_ms ∷ os) {n} v (ne, t, h) =
      run-HasFlow os
        (HasFlow-step (add_op a q d dp now_ms) v (
          add-keeps_other n a q d dp now_ms p v.slot (λ i. ne (sym i)) (HasFlow-IsLive now_ms v t)))
        h
  run-HasFlow (find_op q now_ms ∷ os) {n} v (t, h) =
      run-HasFlow os (HasFlow-find_any q now_ms v t) h
  run-HasFlow (close_op q ∷ os) {n} v (ne, h) =
      run-HasFlow os (HasFlow-step (close_op q) v (lookup-mark_closed_ne n q p ne ∙ v.present)) h
  run-HasFlow (remove_op q ∷ os) {n} v (ne, h) =
      run-HasFlow os (HasFlow-step (remove_op q) v (lookup-remove_ne n q p ne ∙ v.present)) h
  run-HasFlow (expire_op now_ms ∷ os) {n} v (t, h) =
      run-HasFlow os
        (HasFlow-step (expire_op now_ms) v (
          unfold expire in
          lookup-expire_slots n.ttl_ms now_ms n.slots p v.slot v.present
            (HasFlow-IsLive now_ms v t).fresh))
        h
