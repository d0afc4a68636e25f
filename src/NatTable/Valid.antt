-- ===== src/NatTable/Valid.antt =====
-- src/core/pmx_nat.c: the table's invariant.
use proxi_might.Prelude.{
  ℕ, zero, suc, ◌+◌, ◌≡◌, refl, sym, ap, ◌∙◌, Bool, true, false, ◌&&◌, none, some, List, [], ◌∷◌,
  ◌==◌, if◌then◌else◌, get_elem?, set, replicate, arith, inl, inr, Bool-cases, Option-cases,
}
use proxi_might.Prelude.Decimal.{ℤ}
use proxi_might.Status.{Status}
use proxi_might.NatTable.{
  Slot, Table, zero_slot, holds, expired, find_slot, fresh_slot, create, add, hit, find,
  mark_closed, remove, expire_slots, expire,
}
use proxi_might.NatTable.Slots.{
  lookup, Distinct, find_slot-none, find_slot-some, lookup-find_slot, lookup-set-none, lookup-holds,
}
use proxi_might.NatTable.Flows.{
  Added, replaced, taken, reclaimed, full, add-Added, hit-live, at_slot_lem, at_slot-absent,
}
use proxi_might.NatTable.Survival.{Op, add_op, find_op, close_op, remove_op, expire_op, step, run}

abbrev one_if : Bool → ℕ
one_if true = 1
one_if false = 0

pub used_count : List Slot → ℕ
used_count [] = 0
used_count (s ∷ ss) = one_if s.used + used_count ss

pub record IsValid (n : Table) : Type 0 where
  pub distinct : Distinct n.slots
  pub counted : n.count ≡ used_count n.slots

used_count-set :
    (ss : List Slot) (i : ℕ) (s old : Slot)
    → get_elem? ss i ≡ some old
    → used_count (set ss i s) + one_if old.used ≡ used_count ss + one_if s.used
unfolding used_count
used_count-set [] i s old at = absurd (ground arith)
used_count-set (t ∷ ss) zero s old at =
    let same : t ≡ old = ground arith in rw (← same) (omega arith)
used_count-set (t ∷ ss) (suc i) s old at = omega (arith, used_count-set ss i s old at)

-- No slot but the one at `i` is used for `p`.
abbrev NoOther : List Slot → ℕ → ℕ → Type 0
NoOther [] i p = Unit
NoOther (t ∷ ss) zero p = lookup ss p ≡ none
NoOther (t ∷ ss) (suc i) p = (holds t p ≡ false) × NoOther ss i p

NoOther-absent : (ss : List Slot) (i p : ℕ) → lookup ss p ≡ none → NoOther ss i p
unfolding lookup
NoOther-absent [] i p h = tt
NoOther-absent (t ∷ ss) zero p h = ground arith
NoOther-absent (t ∷ ss) (suc i) p h = elim (Bool-cases (holds t p)) [
  | inl e ↦ absurd (ground arith)
  | inr e ↦ (e, NoOther-absent ss i p (rw e at h))
]

NoOther-found : (ss : List Slot) (i p : ℕ) → Distinct ss → find_slot ss p ≡ some i → NoOther ss i p
unfolding find_slot
NoOther-found [] i p v h = tt
NoOther-found (t ∷ ss) zero p (here, rest) h = elim (Bool-cases (holds t p)) [
  | inl e ↦
      let u : t.used ≡ true = ground arith in
      let same : t.e.src_port ≡ p = ground arith in rw (← same) (here u)
  | inr e ↦ elim (Option-cases (find_slot ss p)) [
    | inl f ↦ absurd (ground arith)
    | inr (j, f) ↦ absurd (ground arith)
  ]
]
NoOther-found (t ∷ ss) (suc i) p (here, rest) h = elim (Bool-cases (holds t p)) [
  | inl e ↦ absurd (ground arith)
  | inr e ↦ elim (Option-cases (find_slot ss p)) [
    | inl f ↦ absurd (ground arith)
    | inr (j, f) ↦
        let same : j ≡ i = ground arith in
        (e, NoOther-found ss i p rest (f ∙ ap (λ k. some k) same))
  ]
]

Distinct-set :
    (ss : List Slot) (i : ℕ) (s : Slot)
    → Distinct ss
    → (s.used ≡ true → NoOther ss i s.e.src_port)
    → Distinct (set ss i s)
Distinct-set [] i s v h = tt
Distinct-set (t ∷ ss) zero s (here, rest) h = (h, rest)
Distinct-set (t ∷ ss) (suc i) s (here, rest) h = (
  λ u. lookup-set-none ss i t.e.src_port s (here u) (other u),
  Distinct-set ss i s rest (λ w. (h w).1),
)
  where
    other : t.used ≡ true → holds s t.e.src_port ≡ false
    other u = elim (Bool-cases s.used) [ inl w ↦ ground (arith, (h w).0) | inr w ↦ ground arith ]

-- A used slot that takes the place of a slot, used or not.
IsValid-set :
    (n : Table) (i : ℕ) (s old : Slot)
    → IsValid n
    → get_elem? n.slots i ≡ some old
    → s.used ≡ old.used
    → (s.used ≡ true → NoOther n.slots i s.e.src_port)
    → IsValid (record n { slots = set n.slots i s })
IsValid-set n i s old v at e h = record {
  distinct = Distinct-set n.slots i s v.distinct h;
  counted =
      let same : one_if s.used ≡ one_if old.used = ap one_if e in
      omega (arith, used_count-set n.slots i s old at, v.counted, same);
}

-- A slot that is found, rewritten with its port and its use kept.
IsValid-rewrite :
    (n : Table) (p i : ℕ) (s s' : Slot)
    → IsValid n
    → find_slot n.slots p ≡ some i
    → get_elem? n.slots i ≡ some s
    → lookup n.slots p ≡ some s
    → s'.used ≡ s.used
    → s'.e.src_port ≡ s.e.src_port
    → IsValid (record n { slots = set n.slots i s' })
IsValid-rewrite n p i s s' v f at seen u q =
    let port : s'.e.src_port ≡ p = ground (arith, lookup-holds n.slots p s seen) in
    IsValid-set n i s' s v at u (λ _. rw port (NoOther-found n.slots i p v.distinct f))

module _ (n : Table) (v : IsValid n) where
  Added-IsValid :
      (p now_ms : ℕ) (s : Slot) (r : Table × Status)
      → s.used ≡ true
      → s.e.src_port ≡ p
      → Added n p s now_ms r
      → IsValid r.0
  Added-IsValid p now_ms s _ u q (replaced i f) =
      let (old, at, seen) = find_slot-some n.slots p i f in
      IsValid-set n i s old v at (ground (arith, lookup-holds n.slots p old seen))
        (λ _. rw q (NoOther-found n.slots i p v.distinct f))
  Added-IsValid p now_ms s _ u q (taken i old f at w) = record {
    distinct =
        Distinct-set n.slots i s v.distinct
          (λ _. rw q (NoOther-absent n.slots i p (find_slot-none n.slots p f)));
    counted =
        let new : one_if s.used ≡ 1 = ap one_if u in
        let before : one_if old.used ≡ 0 = ap one_if w in
        omega (arith, used_count-set n.slots i s old at, v.counted, new, before);
  }
  Added-IsValid p now_ms s _ u q (reclaimed i old f at c w) =
      IsValid-set n i s old v at (u ∙ sym w)
        (λ _. rw q (NoOther-absent n.slots i p (find_slot-none n.slots p f)))
  Added-IsValid p now_ms s _ u q (full f l) = v

  add-IsValid : (a p d dp now_ms : ℕ) → IsValid (add n a p d dp now_ms).0
  add-IsValid a p d dp now_ms = elim (Bool-cases (p == 0)) [
    | inl z ↦ unfold add in rw z v
    | inr nz ↦
        Added-IsValid p now_ms (fresh_slot a p d dp now_ms) (add n a p d dp now_ms) refl refl
          (add-Added n a p d dp now_ms (ground arith))
  ]

  hit-IsValid :
      (p i now_ms : ℕ) (s : Slot)
      → find_slot n.slots p ≡ some i
      → get_elem? n.slots i ≡ some s
      → lookup n.slots p ≡ some s
      → IsValid (hit n i s now_ms).0
  hit-IsValid p i now_ms s f at seen = elim (Bool-cases (expired n.ttl_ms s now_ms)) [
    | inl x ↦ unfold hit in rw x v
    | inr x ↦ elim (Bool-cases s.closed) [
      | inl c ↦ unfold hit in rw x (rw c v)
      | inr c ↦
          rw (hit-live n i s now_ms x c)
            (IsValid-rewrite n p i s (record s { last_seen_ms = now_ms }) v f at seen refl refl)
    ]
  ]

  find-IsValid : (p now_ms : ℕ) → IsValid (find n p now_ms).0
  unfolding find
  find-IsValid p now_ms = elim (Bool-cases (p == 0)) [
    | inl z ↦ rw z v
    | inr nz ↦ elim (Option-cases (lookup n.slots p)) [
      | inl h ↦ rw (nz, at_slot-absent n p (n, none) (λ i s. hit n i s now_ms) h) v
      | inr (s, h) ↦
          let (i, f, at) = lookup-find_slot n.slots p s h in
          rw (nz, at_slot_lem n p i s (n, none) (λ i s. hit n i s now_ms) f at)
            (hit-IsValid p i now_ms s f at h)
    ]
  ]

  mark_closed-IsValid : (p : ℕ) → IsValid (mark_closed n p)
  unfolding mark_closed
  mark_closed-IsValid p = elim (Bool-cases (p == 0)) [
    | inl z ↦ rw z v
    | inr nz ↦ elim (Option-cases (lookup n.slots p)) [
      | inl h ↦ rw (nz, at_slot-absent n p n _ h) v
      | inr (s, h) ↦
          let (i, f, at) = lookup-find_slot n.slots p s h in
          rw (nz, at_slot_lem n p i s n _ f at)
            (IsValid-rewrite n p i s (record s { closed = true }) v f at h refl refl)
    ]
  ]

  remove-IsValid : (p : ℕ) → IsValid (remove n p)
  unfolding remove
  remove-IsValid p = elim (Option-cases (lookup n.slots p)) [
    | inl h ↦ rw (at_slot-absent n p n _ h) v
    | inr (s, h) ↦
        let (i, f, at) = lookup-find_slot n.slots p s h in
        let u : s.used ≡ true = ground (arith, lookup-holds n.slots p s h) in
        rw (at_slot_lem n p i s n _ f at) (record {
          distinct = Distinct-set n.slots i zero_slot v.distinct (λ e. cc);
          counted =
              let one : one_if s.used ≡ 1 = ap one_if u in
              omega (arith, used_count-set n.slots i zero_slot s at, v.counted, one);
        })
  ]

lookup-expire_slots-none :
    (ttl now_ms : ℕ) (ss : List Slot) (p : ℕ)
    → lookup ss p ≡ none
    → lookup (expire_slots ttl now_ms ss).0 p ≡ none
unfolding lookup expire_slots
lookup-expire_slots-none ttl now_ms [] p h = refl
lookup-expire_slots-none ttl now_ms (t ∷ ss) p h = elim (Bool-cases (holds t p)) [
  | inl held ↦ absurd (ground arith)
  | inr other ↦
      let ih = lookup-expire_slots-none ttl now_ms ss p (rw other at h) in ground (arith, ih)
]

expire_slots-Distinct :
    (ttl now_ms : ℕ) (ss : List Slot) → Distinct ss → Distinct (expire_slots ttl now_ms ss).0
unfolding expire_slots
expire_slots-Distinct ttl now_ms [] v = tt
expire_slots-Distinct ttl now_ms (t ∷ ss) (here, rest) =
    elim (Bool-cases (t.used && expired ttl t now_ms)) [
      | inl x ↦ rw x (λ e. cc, expire_slots-Distinct ttl now_ms ss rest)
      | inr x ↦ rw x (
        λ u. lookup-expire_slots-none ttl now_ms ss t.e.src_port (here u),
        expire_slots-Distinct ttl now_ms ss rest,
      )
    ]

-- The sweep for expired flows reports the number of used slots that it freed.
pub used_count-expire_slots :
    (ttl now_ms : ℕ) (ss : List Slot)
    → used_count (expire_slots ttl now_ms ss).0 + (expire_slots ttl now_ms ss).1 ≡ used_count ss
unfolding expire_slots used_count
used_count-expire_slots ttl now_ms [] = omega arith
used_count-expire_slots ttl now_ms (t ∷ ss) = ground (arith, used_count-expire_slots ttl now_ms ss)

expire-IsValid : (n : Table) (now_ms : ℕ) → IsValid n → IsValid (expire n now_ms).0
unfolding expire
expire-IsValid n now_ms v = record {
  distinct = expire_slots-Distinct n.ttl_ms now_ms n.slots v.distinct;
  counted = omega (arith, used_count-expire_slots n.ttl_ms now_ms n.slots, v.counted);
}

create_slots-IsValid :
    (k : ℕ) → Distinct (replicate k zero_slot) × (used_count (replicate k zero_slot) ≡ 0)
unfolding used_count
create_slots-IsValid zero = (tt, refl)
create_slots-IsValid (suc k) =
    let (d, c) = create_slots-IsValid k in ((λ e. cc, d), omega (arith, c))

create-IsValid : (capacity : ℕ) (ttl_ms : ℤ) → IsValid (create capacity ttl_ms)
unfolding create
create-IsValid capacity ttl_ms =
    let (d, c) = create_slots-IsValid (if capacity == 0 then 512 else capacity) in
    record { distinct = d; counted = sym c }

step-IsValid : (n : Table) (o : Op) → IsValid n → IsValid (step n o)
unfolding step
step-IsValid n (add_op a p d dp now_ms) v = add-IsValid n v a p d dp now_ms
step-IsValid n (find_op p now_ms) v = find-IsValid n v p now_ms
step-IsValid n (close_op p) v = mark_closed-IsValid n v p
step-IsValid n (remove_op p) v = remove-IsValid n v p
step-IsValid n (expire_op now_ms) v = expire-IsValid n now_ms v

run-IsValid : (n : Table) (os : List Op) → IsValid n → IsValid (run n os)
unfolding run
run-IsValid n [] v = v
run-IsValid n (o ∷ os) v = run-IsValid (step n o) os (step-IsValid n o v)

-- After any calls on a new table no port has two used slots, and the counter is the number of
-- used slots.
pub run-create-IsValid :
    (capacity : ℕ) (ttl_ms : ℤ) (os : List Op) → IsValid (run (create capacity ttl_ms) os)
run-create-IsValid capacity ttl_ms os =
    run-IsValid (create capacity ttl_ms) os (create-IsValid capacity ttl_ms)
