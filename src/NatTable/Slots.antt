-- ===== src/NatTable/Slots.antt =====
-- The slots as a map from ports: what a write to one slot does to the lookups.
use proxi_might.Prelude.{
  ℕ, zero, suc, ◌<◌, ◌≡◌, ◌≢◌, refl, true, false, ◌||◌, Option, none, some, List, [], ◌∷◌,
  if◌then◌else◌, length, get_elem?, set, ap, ◌∙◌, arith, inl, inr, Bool-cases, Option-cases,
}
use proxi_might.NatTable.{Slot, holds, find_slot, expired, Choice, free, reclaim}

-- The slot that is used for the port.
unfoldable pub lookup : List Slot → ℕ → Option Slot
lookup [] p = none
lookup (s ∷ ss) p = let rest = lookup ss p in if holds s p then some s else rest

-- No two used slots are for the same port.
abbrev pub Distinct : List Slot → Type 0
Distinct [] = Unit
Distinct (s ∷ ss) = (s.used ≡ true → lookup ss s.e.src_port ≡ none) × Distinct ss

pub lookup-holds : (ss : List Slot) (p : ℕ) (s : Slot) → lookup ss p ≡ some s → holds s p ≡ true
unfolding lookup
lookup-holds [] p s h = cc
lookup-holds (t ∷ ss) p s h = elim (Bool-cases (holds t p)) [
  | inl e ↦ ground arith
  | inr e ↦ lookup-holds ss p s (rw e at h)
]

pub find_slot-none : (ss : List Slot) (p : ℕ) → find_slot ss p ≡ none → lookup ss p ≡ none
unfolding find_slot lookup
find_slot-none [] p h = refl
find_slot-none (s ∷ ss) p h = ground (arith, find_slot-none ss p)

-- A slot that was found is in the table, and is what a lookup sees.
pub find_slot-some :
    (ss : List Slot) (p i : ℕ)
    → find_slot ss p ≡ some i
    → (s : Slot) × (get_elem? ss i ≡ some s) × (lookup ss p ≡ some s)
unfolding find_slot lookup
find_slot-some [] p i h = cc
find_slot-some (s ∷ ss) p zero h = elim (Bool-cases (holds s p)) [
  | inl e ↦ (s, refl, rw e)
  | inr e ↦ elim (Option-cases (find_slot ss p)) [
    | inl f ↦ absurd (ground arith)
    | inr (j, f) ↦ absurd (ground arith)
  ]
]
find_slot-some (s ∷ ss) p (suc i) h = elim (Bool-cases (holds s p)) [
  | inl e ↦ absurd (ground arith)
  | inr e ↦ elim (Option-cases (find_slot ss p)) [
    | inl f ↦ absurd (ground arith)
    | inr (j, f) ↦
        let same : j ≡ i = ground arith in
        let (t, at, seen) = find_slot-some ss p i (f ∙ ap (λ k. some k) same) in (t, at, rw e seen)
  ]
]

pub lookup-find_slot :
    (ss : List Slot) (p : ℕ) (s : Slot)
    → lookup ss p ≡ some s
    → (i : ℕ) × (find_slot ss p ≡ some i) × (get_elem? ss i ≡ some s)
unfolding find_slot lookup
lookup-find_slot [] p s h = cc
lookup-find_slot (t ∷ ss) p s h = elim (Bool-cases (holds t p)) [
  | inl e ↦ (0, rw e, rw e at h)
  | inr e ↦ let (i, f, at) = lookup-find_slot ss p s (rw e at h) in (suc i, rw (e, f), at)
]

-- A write of a slot for `p` where the table had none for `p`.
pub lookup-set_absent :
    (ss : List Slot) (i p : ℕ) (s : Slot)
    → lookup ss p ≡ none
    → i < length ss
    → holds s p ≡ true
    → lookup (set ss i s) p ≡ some s
unfolding lookup
lookup-set_absent [] i p s h hi hs = absurd (omega arith)
lookup-set_absent (t ∷ ss) zero p s h hi hs = rw hs
lookup-set_absent (t ∷ ss) (suc i) p s h hi hs = elim (Bool-cases (holds t p)) [
  | inl e ↦ absurd (ground arith)
  | inr e ↦ rw e (lookup-set_absent ss i p s (rw e at h) (omega arith) hs)
]

-- A write to the slot that was found for `p`.
pub lookup-set_found :
    (ss : List Slot) (i p : ℕ) (s : Slot)
    → find_slot ss p ≡ some i
    → holds s p ≡ true
    → lookup (set ss i s) p ≡ some s
unfolding lookup find_slot
lookup-set_found [] i p s h hs = absurd (ground arith)
lookup-set_found (t ∷ ss) zero p s h hs = rw hs
lookup-set_found (t ∷ ss) (suc i) p s h hs = elim (Bool-cases (holds t p)) [
  | inl e ↦ absurd (ground arith)
  | inr e ↦ elim (Option-cases (find_slot ss p)) [
    | inl f ↦ absurd (ground arith)
    | inr (j, f) ↦
        let same : j ≡ i = ground arith in
        rw e (lookup-set_found ss i p s (f ∙ ap (λ k. some k) same) hs)
  ]
]

-- A write to a slot that no lookup of `q` sees, of a slot that is not for `q`.
pub lookup-set_other :
    (ss : List Slot) (i q : ℕ) (s t : Slot)
    → get_elem? ss i ≡ some t
    → holds s q ≡ false
    → (lookup ss q ≡ some t → ⊥)
    → lookup (set ss i s) q ≡ lookup ss q
unfolding lookup
lookup-set_other [] i q s t at hs ne = absurd (ground arith)
lookup-set_other (u ∷ ss) zero q s t at hs ne = elim (Bool-cases (holds u q)) [
  | inl e ↦ absurd (ne (rw e at))
  | inr e ↦ rw (hs, e)
]
lookup-set_other (u ∷ ss) (suc i) q s t at hs ne = elim (Bool-cases (holds u q)) [
  | inl e ↦ rw e
  | inr e ↦ rw e (lookup-set_other ss i q s t at hs (λ h. ne (rw e h)))
]

-- Of a slot that is not for `q`, a write leaves an absent `q` absent.
pub lookup-set-none :
    (ss : List Slot) (i q : ℕ) (s : Slot)
    → lookup ss q ≡ none
    → holds s q ≡ false
    → lookup (set ss i s) q ≡ none
unfolding lookup
lookup-set-none [] i q s h hs = refl
lookup-set-none (u ∷ ss) zero q s h hs = elim (Bool-cases (holds u q)) [
  | inl e ↦ absurd (ground arith)
  | inr e ↦ rw hs (rw e at h)
]
lookup-set-none (u ∷ ss) (suc i) q s h hs = elim (Bool-cases (holds u q)) [
  | inl e ↦ absurd (ground arith)
  | inr e ↦ rw e (lookup-set-none ss i q s (rw e at h) hs)
]

pub holds-ne : (s : Slot) (p q : ℕ) → holds s p ≡ true → q ≢ p → holds s q ≡ false
holds-ne s p q h ne = ground arith

-- What `choose` may give away: a slot that is free, closed or expired.
abbrev pub IsReclaimable : ℕ → ℕ → Slot → Type 0
IsReclaimable ttl now_ms s = (expired ttl s now_ms || s.closed) ≡ true

abbrev pub IsChosen : ℕ → ℕ → List Slot → Choice → Type 0
IsChosen ttl now_ms ss (free i) = (s : Slot) × (get_elem? ss i ≡ some s) × (s.used ≡ false)
IsChosen ttl now_ms ss (reclaim none) = Unit
IsChosen ttl now_ms ss (reclaim (some (i, _))) =
    (s : Slot) × (get_elem? ss i ≡ some s) × IsReclaimable ttl now_ms s × (s.used ≡ true)
