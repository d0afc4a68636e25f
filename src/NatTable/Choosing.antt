-- ===== src/NatTable/Choosing.antt =====
-- src/core/pmx_nat.c: which slot `add` takes for a new port.
use proxi_might.Prelude.{
  ℕ, suc, ◌+◌, ◌≡◌, ◌≢◌, refl, ◌↔◌, true, false, ◌||◌, ◌&&◌, Option, none, some, List, [], ◌∷◌,
  if◌then◌else◌, get_elem?, arith, inl, inr, Bool-cases,
}
use proxi_might.NatTable.{Slot, reclaim, expired, older, choose}
use proxi_might.NatTable.Slots.{IsChosen}

-- Every slot is used, by a flow that is neither expired nor closed.
abbrev pub AllLive : ℕ → ℕ → List Slot → Type 0
AllLive ttl now_ms [] = Unit
AllLive ttl now_ms (s ∷ ss) =
    (s.used ≡ true) × (expired ttl s now_ms ≡ false) × (s.closed ≡ false) × AllLive ttl now_ms ss

-- The candidate after a slot that is used.
abbrev better : ℕ → ℕ → Slot → ℕ → Option (ℕ × ℕ) → Option (ℕ × ℕ)
better ttl now_ms s i best =
    if (expired ttl s now_ms || s.closed) && older s.e.created_ms best
    then some (i, s.e.created_ms)
    else best

module _ (ttl now_ms : ℕ) (full : List Slot) where
  better-IsChosen :
      (s : Slot) (i : ℕ) (best : Option (ℕ × ℕ))
      → get_elem? full i ≡ some s
      → s.used ≡ true
      → IsChosen ttl now_ms full (reclaim best)
      → IsChosen ttl now_ms full (reclaim (better ttl now_ms s i best))
  better-IsChosen s i best at u h = elim (Bool-cases (expired ttl s now_ms || s.closed)) [
    | inl r ↦ elim (Bool-cases (older s.e.created_ms best)) [
      | inl o ↦ rw (r, o) (s, at, r, u)
      | inr o ↦ rw (r, o) h
    ]
    | inr r ↦ rw r h
  ]

  -- `ss` is what is left of the table from `i` on.
  pub choose-IsChosen :
      (ss : List Slot) (i : ℕ) (best : Option (ℕ × ℕ))
      → ((k : ℕ) (s : Slot) → get_elem? ss k ≡ some s → get_elem? full (i + k) ≡ some s)
      → IsChosen ttl now_ms full (reclaim best)
      → IsChosen ttl now_ms full (choose ttl now_ms ss i best)
  unfolding choose expired
  choose-IsChosen [] i best tail h = h
  choose-IsChosen (s ∷ ss) i best tail h =
      let e : i + 0 ≡ i = omega arith in
      let at : get_elem? full i ≡ some s = rw e at (tail 0 s refl) in
      let tail' = λ (k : ℕ) (t : Slot) (g : get_elem? ss k ≡ some t).
        (let e' : i + suc k ≡ suc i + k = omega arith in rw e' at (tail (suc k) t g)) in
      elim (Bool-cases s.used) [
        | inl u ↦ rw u (
            choose-IsChosen ss (suc i) (better ttl now_ms s i best) tail'
              (better-IsChosen s i best at u h))
        | inr u ↦ rw u (s, at, u)
      ]

-- A candidate is never given up.
choose-some :
    (ttl now_ms : ℕ) (ss : List Slot) (i : ℕ) (b : ℕ × ℕ)
    → choose ttl now_ms ss i (some b) ≢ reclaim none
unfolding choose
choose-some ttl now_ms [] i b h = cc
choose-some ttl now_ms (s ∷ ss) i b h = ground (
  arith,
  choose-some ttl now_ms ss (suc i) b,
  choose-some ttl now_ms ss (suc i) (i, s.e.created_ms),
)

all_live :
    (ttl now_ms : ℕ) (ss : List Slot) (i : ℕ)
    → choose ttl now_ms ss i none ≡ reclaim none
    → AllLive ttl now_ms ss
unfolding choose
all_live ttl now_ms [] i h = tt
all_live ttl now_ms (s ∷ ss) i h =
    ground
      (arith, all_live ttl now_ms ss (suc i), choose-some ttl now_ms ss (suc i) (i, s.e.created_ms))

none_left :
    (ttl now_ms : ℕ) (ss : List Slot) (i : ℕ)
    → AllLive ttl now_ms ss
    → choose ttl now_ms ss i none ≡ reclaim none
unfolding choose expired
none_left ttl now_ms [] i h = refl
none_left ttl now_ms (s ∷ ss) i (u, e, c, h) = rw (u, e, c) (none_left ttl now_ms ss (suc i) h)

-- There is nothing to take exactly if every slot holds a live flow.
pub choose-none_iff :
    (ttl now_ms : ℕ) (ss : List Slot) (i : ℕ)
    → (choose ttl now_ms ss i none ≡ reclaim none) ↔ AllLive ttl now_ms ss
choose-none_iff ttl now_ms ss i = (all_live ttl now_ms ss i, none_left ttl now_ms ss i)
