-- ===== src/Rule/Glob/Correct.antt =====
-- src/core/pmx_rule.c: the matcher of Rule/Glob.antt and the plain meaning of a glob.
use proxi_might.Prelude.{
  ap, ℕ, zero, suc, ◌+◌, ◌*◌, ◌≤◌, ◌<◌, ◌≡◌, refl, Bool, true, false, ◌||◌, ◌∙◌, none, some, [],
  ◌∷◌, ◌==◌, length, arith, inl, inr, Bool-cases,
}
use proxi_might.Prelude.Bytes.{Bytes}
use proxi_might.Rule.Glob.{
  star, accepts, Back, only_stars, retry, glob_loop, glob_fuel, answer, glob_match,
}
use proxi_might.Rule.Glob.Reference.{
  one_byte-accepts, some_tail, glob_spec, glob_spec-star, glob_spec_byte, or_absorb, some_tail_tail,
  two_stars_at, drop_byte, only_stars-eq-glob_spec,
}

-- `f` of the text behind its first byte.
abbrev behind_first : (Bytes → Bool) → Bytes → Bool
behind_first f [] = false
behind_first f (c ∷ t) = f t

-- What the loop has still to answer: the rest of the text as it stands, or a longer star.
abbrev pending : Bool → Bytes → Bytes → Back → Bool
pending ci p t none = glob_spec ci p t
pending ci p t (some (bp, bt)) = glob_spec ci p t || behind_first (some_tail (glob_spec ci bp)) bt

some_tail-split :
    (f : Bytes → Bool) (t : Bytes) → (f t || behind_first (some_tail f) t) ≡ some_tail f t
unfolding some_tail
some_tail-split f [] = ground arith
some_tail-split f (c ∷ t) = refl

module _ (ci : Bool) (k : ℕ) where
  -- Why the last star is enough: a longer star at an earlier place is one at this place. `m` bounds
  -- the text that is left to the star.
  abbrev Saved : ℕ → Bytes → Bytes → Back → Type 0
  Saved m p t none = Unit
  Saved m p t (some (bp, bt)) =
      (behind_first (some_tail (glob_spec ci bp)) bt ≡ true → some_tail (glob_spec ci p) t ≡ true)
      × (length t ≤ length bt)
      × (length bt ≤ m)
      × (length bp < k)

  record Inv (f m : ℕ) (p t : Bytes) (back : Back) : Type 0 where
    saved : Saved m p t back
    text_bound : length t ≤ m
    pattern_bound : length p < k
    fuel : m * k + length p < f

  -- A star at the head of the pattern becomes the saved one.
  Inv-restart :
      {f m : ℕ} (p t : Bytes)
      → length t ≤ m
      → length p < k
      → m * k + length p < f
      → Inv f m p t (some (p, t))
  Inv-restart p [] ht hp hf = record {
    saved = (λ e. cc, omega arith, ht, hp);
    text_bound = ht;
    pattern_bound = hp;
    fuel = hf;
  }
  Inv-restart p (c ∷ t) ht hp hf = record {
    saved = (λ e. some_tail_tail (glob_spec ci p) c t e, omega arith, ht, hp);
    text_bound = ht;
    pattern_bound = hp;
    fuel = hf;
  }

  -- A byte that is matched.
  Inv-byte :
      {f m : ℕ} (x : ℕ) (p : Bytes) (c : ℕ) (t : Bytes) (back : Back)
      → (x == star) ≡ false
      → Inv (suc f) m (x ∷ p) (c ∷ t) back
      → Inv f m p t back
  Inv-byte x p c t none hx i = record {
    saved = tt;
    text_bound = omega (arith, i.text_bound);
    pattern_bound = omega (arith, i.pattern_bound);
    fuel = omega (arith, i.fuel);
  }
  Inv-byte x p c t (some (bp, bt)) hx i =
      let (later, ht, hm, hp) = i.saved in
      record {
        saved = (
          λ e. drop_byte ci x (glob_spec ci p) c t (rw (glob_spec_byte ci x p hx) at (later e)),
          omega arith,
          hm,
          hp,
        );
        text_bound = omega (arith, i.text_bound);
        pattern_bound = omega (arith, i.pattern_bound);
        fuel = omega (arith, i.fuel);
      }

  -- At a star, what is pending is what the new star has to answer.
  pending-star :
      {f m : ℕ} (x : ℕ) (p : Bytes) (c : ℕ) (t : Bytes) (back : Back)
      → (x == star) ≡ true
      → Inv f m (x ∷ p) (c ∷ t) back
      → pending ci p (c ∷ t) (some (p, c ∷ t)) ≡ pending ci (x ∷ p) (c ∷ t) back
  unfolding some_tail
  pending-star x p c t none hx i = rw (glob_spec-star ci x p hx)
  pending-star x p c t (some (bp, bt)) hx i = rw (glob_spec-star ci x p hx) (
      or_absorb (some_tail (glob_spec ci p) (c ∷ t)) _
        (λ e. two_stars_at ci x p (c ∷ t) hx (i.saved.0 e)))

  -- At the end of the text no longer star helps.
  pending-end :
      {f m : ℕ} (p : Bytes) (back : Back)
      → Inv f m p [] back
      → glob_spec ci p [] ≡ pending ci p [] back
  unfolding some_tail
  pending-end p none i = refl
  pending-end p (some (bp, bt)) i = or_absorb (glob_spec ci p []) _ (i.saved.0)

  at_end :
      (f m : ℕ) (p : Bytes) (back : Back)
      → Inv (suc f) m p [] back
      → only_stars p ≡ pending ci p [] back
  at_end f m p back i = only_stars-eq-glob_spec ci p ∙ pending-end p back i

  pending-byte :
      (x : ℕ) (p : Bytes) (c : ℕ) (t : Bytes) (back : Back)
      → (x == star) ≡ false
      → accepts ci x c ≡ true
      → pending ci p t back ≡ pending ci (x ∷ p) (c ∷ t) back
  pending-byte x p c t none hx ha =
      rw (glob_spec_byte ci x p hx, one_byte-accepts ci x (glob_spec ci p) c t, ha)
  pending-byte x p c t (some (bp, bt)) hx ha =
      rw (glob_spec_byte ci x p hx, one_byte-accepts ci x (glob_spec ci p) c t, ha)

  no_byte :
      (x : ℕ) (p : Bytes) (c : ℕ) (t : Bytes)
      → (x == star) ≡ false
      → accepts ci x c ≡ false
      → glob_spec ci (x ∷ p) (c ∷ t) ≡ false
  no_byte x p c t hx ha =
      rw (glob_spec_byte ci x p hx, one_byte-accepts ci x (glob_spec ci p) c t, ha)

  abbrev Answers : ℕ → Type 0
  Answers f =
      (m : ℕ) (p t : Bytes) (back : Back)
      → Inv f m p t back
      → glob_loop f ci p t back ≡ some (pending ci p t back)

  -- After a mismatch the saved star takes one more byte, which lowers `m` and pays for the pattern.
  retry_lem :
      {f : ℕ} (m : ℕ) (p : Bytes) (c : ℕ) (t : Bytes) (back : Back)
      → Answers f
      → Inv (suc f) m p (c ∷ t) back
      → glob_spec ci p (c ∷ t) ≡ false
      → retry back (glob_loop f ci) ≡ some (pending ci p (c ∷ t) back)
  unfolding retry some_tail
  retry_lem m p c t none ih i no_match = rw no_match
  retry_lem m p c t (some (bp, [])) ih i no_match = absurd (omega (arith, i.saved))
  retry_lem zero p c t (some (bp, d ∷ bt)) ih i no_match = absurd (omega (arith, i.saved))
  retry_lem (suc m) p c t (some (bp, d ∷ bt)) ih i no_match =
      let (_, ht, hm, hp) = i.saved in
      rw no_match (
        ih m bp bt (some (bp, bt)) (Inv-restart bp bt (omega arith) hp (omega (arith, i.fuel)))
        ∙ ap (λ b. some b) (some_tail-split (glob_spec ci bp) bt))

  glob_loop_lem : (f : ℕ) → Answers f
  unfolding glob_loop
  glob_loop_lem zero m p t back i = absurd (omega (arith, i.fuel))
  glob_loop_lem (suc f) m [] [] back i = ap (λ b. some b) (at_end f m [] back i)
  glob_loop_lem (suc f) m (x ∷ p) [] back i = ap (λ b. some b) (at_end f m (x ∷ p) back i)
  glob_loop_lem (suc f) m [] (c ∷ t) back i =
      retry_lem m [] c t back (glob_loop_lem f) i (unfold glob_spec in refl)
  glob_loop_lem (suc f) m (x ∷ p) (c ∷ t) back i = elim (Bool-cases (x == star)) [
    | inl hx ↦ rw hx (
        glob_loop_lem f m p (c ∷ t) (some (p, c ∷ t)) (
          Inv-restart p (c ∷ t) i.text_bound (omega (arith, i.pattern_bound))
            (omega (arith, i.fuel)))
        ∙ ap (λ b. some b) (pending-star x p c t back hx i))
    | inr hx ↦ elim (Bool-cases (accepts ci x c)) [
      | inl ha ↦
          rw (hx, ha)
            (glob_loop_lem f m p t back (Inv-byte x p c t back hx i)
              ∙ ap (λ b. some b) (pending-byte x p c t back hx ha))
      | inr ha ↦
          rw (hx, ha) (retry_lem m (x ∷ p) c t back (glob_loop_lem f) i (no_byte x p c t hx ha))
    ]
  ]

-- The loop ends within its fuel.
pub glob_loop_total :
    (ci : Bool) (p t : Bytes) → glob_loop (glob_fuel p t) ci p t none ≡ some (glob_spec ci p t)
unfolding glob_fuel
glob_loop_total ci p t = glob_loop_lem ci (length p + 1) _ (length t) p t none (record {
  saved = tt;
  text_bound = omega arith;
  pattern_bound = omega arith;
  fuel = grind arith;
})

-- The glob matcher, which goes back to the last star only, gives the answer of the specification
-- by all splits of the text, for every pattern, text and case mode; its fuel never runs out.
pub glob_match-eq-glob_spec : (p t : Bytes) (ci : Bool) → glob_match p t ci ≡ glob_spec ci p t
unfolding glob_match answer
glob_match-eq-glob_spec p t ci = rw (glob_loop_total ci p t)
