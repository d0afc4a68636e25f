-- ===== src/Prelude/Arrays.antt =====
-- The loops by which the program closes a gap in an array and moves an element to another place,
-- as they stand in src/core/pmx_chain.c and, over other elements, in src/core/pmx_profile.c.
-- The list is the part of the array below its count.
use Prim.Native.Nat.{ℕ, zero, suc, ◌+◌, ◌-◌, ◌<◌, ◌≤◌}
use mathlib.Core.Path.{◌≡◌, refl, ap, ◌∙◌}
use mathlib.Core.Logic.{inl, inr}
use mathlib.Core.Option.{none, some}
use mathlib.Core.List.{List, [], ◌∷◌}
use native.Mathlib.Omega.{arith}
use proxi_might.Prelude.Tests.{ltb, ltb→lt, if◌then◌else◌, Bool-cases, Option-cases}
use proxi_might.Prelude.Lists.{length, get_elem?, set, take, erase_at, insert_at, length-set}

module _ {ℓ} {A : Type ℓ} where
  -- a[i] = a[j]
  copy_elem : List A → ℕ → ℕ → List A
  copy_elem xs i j = elim (get_elem? xs j) [ none ↦ xs | some v ↦ set xs i v ]

  -- `k` rounds of `a[i] = a[i + 1]; i++`
  shift_down : ℕ → ℕ → List A → List A
  shift_down zero i xs = xs
  shift_down (suc k) i xs = shift_down k (suc i) (copy_elem xs i (suc i))

  -- `k` rounds of `a[i] = a[i - 1]; i--`
  shift_up : ℕ → ℕ → List A → List A
  shift_up zero i xs = xs
  shift_up (suc k) zero xs = xs
  shift_up (suc k) (suc i) xs = shift_up k i (copy_elem xs (suc i) i)

  -- for (i = index; i + 1 < count; i++) a[i] = a[i + 1]; count--;
  unfoldable pub remove_at : List A → ℕ → List A
  unfolding shift_down copy_elem
  remove_at xs index = take (length xs - 1) (shift_down (length xs - 1 - index) index xs)

  -- The element `moved`, which stood at `from`, goes to `to`; those between close up.
  unfoldable pub move_to : List A → ℕ → ℕ → A → List A
  unfolding shift_down shift_up copy_elem
  move_to xs from to moved =
      let shifted =
        if ltb from to then shift_down (to - from) from xs else shift_up (from - to) from xs in
      set shifted to moved

module _ {ℓ} {A : Type ℓ} where
  copy_elem-cons :
      (x : A) (xs : List A) (i j : ℕ) → copy_elem (x ∷ xs) (suc i) (suc j) ≡ x ∷ copy_elem xs i j
  unfolding copy_elem
  copy_elem-cons x xs i j = ground arith

  shift_down-cons :
      (k i : ℕ) (x : A) (xs : List A) → shift_down k (suc i) (x ∷ xs) ≡ x ∷ shift_down k i xs
  unfolding shift_down
  shift_down-cons zero i x xs = refl
  shift_down-cons (suc k) i x xs =
      rw (copy_elem-cons x xs i (suc i)) (shift_down-cons k (suc i) x (copy_elem xs i (suc i)))

  shift_up-cons :
      (k i : ℕ) (x : A) (xs : List A) → k ≤ i → shift_up k (suc i) (x ∷ xs) ≡ x ∷ shift_up k i xs
  unfolding shift_up
  shift_up-cons zero i x xs h = refl
  shift_up-cons (suc k) zero x xs h = absurd (omega arith)
  shift_up-cons (suc k) (suc i) x xs h =
      rw (copy_elem-cons x xs (suc i) i)
        (shift_up-cons k i x (copy_elem xs (suc i) i) (omega arith))

  shift_down-tail :
      (x : A) (xs : List A) → take (length xs) (shift_down (length xs) 0 (x ∷ xs)) ≡ xs
  unfolding shift_down copy_elem
  shift_down-tail x [] = refl
  shift_down-tail x (y ∷ ys) =
      rw (shift_down-cons (length ys) 0 y (y ∷ ys)) (ap (λ t. y ∷ t) (shift_down-tail y ys))

  length-copy_elem : (xs : List A) (i j : ℕ) → length (copy_elem xs i j) ≡ length xs
  unfolding copy_elem
  length-copy_elem xs i j = elim (Option-cases (get_elem? xs j)) [
    | inl e ↦ rw (e, copy_elem)
    | inr (v, e) ↦ rw (e, copy_elem) (length-set xs i v)
  ]

  erase_at-copy_elem :
      (xs : List A) (k : ℕ)
      → suc k < length xs
      → erase_at (copy_elem xs (suc k) k) k ≡ erase_at xs (suc k)
  unfolding copy_elem
  erase_at-copy_elem [] k h = absurd (omega arith)
  erase_at-copy_elem (a ∷ []) k h = absurd (omega arith)
  erase_at-copy_elem (a ∷ b ∷ r) zero h = refl
  erase_at-copy_elem (a ∷ b ∷ r) (suc k) h =
      rw (copy_elem-cons a (b ∷ r) (suc k) k)
        (ap (λ t. a ∷ t) (erase_at-copy_elem (b ∷ r) k (omega arith)))

  take-shift_down :
      (xs : List A) (i k n : ℕ)
      → k + i + 1 ≡ length xs
      → n + 1 ≡ length xs
      → take n (shift_down k i xs) ≡ erase_at xs i
  take-shift_down [] i k n h h' = absurd (omega arith)
  take-shift_down (x ∷ xs) zero k n h h' =
      let e : k ≡ length xs = omega arith in
      let e' : n ≡ length xs = omega arith in rw (e, e') (shift_down-tail x xs)
  take-shift_down (x ∷ xs) (suc i) k zero h h' = absurd (omega arith)
  take-shift_down (x ∷ xs) (suc i) k (suc n) h h' =
      rw (shift_down-cons k i x xs)
        (ap (λ t. x ∷ t) (take-shift_down xs i k n (omega arith) (omega arith)))

  set-shift_down :
      (xs : List A) (i k : ℕ) (v : A)
      → i + k < length xs
      → set (shift_down k i xs) (i + k) v ≡ insert_at (erase_at xs i) (i + k) v
  unfolding shift_down copy_elem
  set-shift_down [] i k v h = absurd (omega arith)
  set-shift_down (x ∷ xs) (suc i) k v h =
      let e : suc i + k ≡ suc (i + k) = omega arith in
      rw (shift_down-cons k i x xs, e) (ap (λ t. x ∷ t) (set-shift_down xs i k v (omega arith)))
  set-shift_down (x ∷ xs) zero zero v h = refl
  set-shift_down (x ∷ []) zero (suc k) v h = absurd (omega arith)
  set-shift_down (x ∷ y ∷ ys) zero (suc k) v h =
      let e : zero + suc k ≡ suc k = omega arith in
      let e' : zero + k ≡ k = omega arith in
      let ih : set (shift_down k zero (y ∷ ys)) k v ≡ insert_at ys k v =
        rw e' at (set-shift_down (y ∷ ys) zero k v (omega arith)) in
      rw (e, shift_down-cons k 0 y (y ∷ ys)) (ap (λ t. y ∷ t) ih)

  set-shift_up_all :
      (k : ℕ) (xs : List A) (v : A) → k < length xs → set (shift_up k k xs) 0 v ≡ v ∷ erase_at xs k
  unfolding shift_up
  set-shift_up_all zero [] v h = elim h [ ]
  set-shift_up_all zero (x ∷ xs) v h = refl
  set-shift_up_all (suc k) xs v h =
      set-shift_up_all k (copy_elem xs (suc k) k) v (omega (arith, length-copy_elem xs (suc k) k))
      ∙ ap (λ t. v ∷ t) (erase_at-copy_elem xs k h)

  set-shift_up :
      (xs : List A) (t k : ℕ) (v : A)
      → t + k < length xs
      → set (shift_up k (t + k) xs) t v ≡ insert_at (erase_at xs (t + k)) t v
  set-shift_up [] t k v h = absurd (omega arith)
  set-shift_up (x ∷ xs) zero k v h =
      let e : zero + k ≡ k = omega arith in rw e (set-shift_up_all k (x ∷ xs) v (omega arith))
  set-shift_up (x ∷ xs) (suc t) k v h =
      let e : suc t + k ≡ suc (t + k) = omega arith in
      rw (e, shift_up-cons k (t + k) x xs (omega arith))
        (ap (λ u. x ∷ u) (set-shift_up xs t k v (omega arith)))

  -- The loop removes exactly the element at the index.
  pub remove_at-eq-erase_at : (xs : List A) (i : ℕ) → i < length xs → remove_at xs i ≡ erase_at xs i
  unfolding remove_at
  remove_at-eq-erase_at xs i h =
      take-shift_down xs i (length xs - 1 - i) (length xs - 1) (omega arith) (omega arith)

  -- The loops take the element out of its place and put `v` in at the new one.
  pub move_to-eq-insert_at :
      (xs : List A) (from to : ℕ) (v : A)
      → from < length xs
      → to < length xs
      → move_to xs from to v ≡ insert_at (erase_at xs from) to v
  unfolding move_to
  move_to-eq-insert_at xs from to v hf ht = elim (Bool-cases (ltb from to)) [
    | inl up ↦
        let e : from + (to - from) ≡ to = omega (arith, ltb→lt from to up) in
        rw up (rw e at (set-shift_down xs from (to - from) v (omega (arith, ltb→lt from to up))))
    | inr down ↦
        let le : to ≤ from = ground arith in
        let e : to + (from - to) ≡ from = omega arith in
        rw down (rw e at (set-shift_up xs to (from - to) v (omega arith)))
  ]
