-- ===== src/Rule/Glob/Reference.antt =====
-- The plain meaning of a glob, and what stars and bytes do in it.
use proxi_might.Prelude.{
  ap, sym, leb, ◌+◌, ℕ, ◌≡◌, refl, Bool, true, false, ◌||◌, ◌&&◌, [], ◌∷◌, ◌==◌, if◌then◌else◌,
  arith,
}
use mathlib.Core.Path.{fun_ext}
use proxi_might.Prelude.Bytes.{Bytes, tolower}
use proxi_might.Rule.Glob.{star, ceq, accepts, only_stars}

-- `f` holds of the text or of one of its tails.
unfoldable pub some_tail : (Bytes → Bool) → Bytes → Bool
some_tail f [] = f []
some_tail f (c ∷ t) = f (c ∷ t) || some_tail f t

abbrev pub lower : ℕ → ℕ
lower c = if leb b'A' c && leb c b'Z' then c + 32 else c

-- A question mark stands for any byte, another byte for itself, or for itself in either case.
abbrev pub byte_spec : Bool → ℕ → ℕ → Bool
byte_spec true x c = x == b'?' || lower x == lower c
byte_spec false x c = x == b'?' || x == c

pub accepts-eq-byte_spec : (ci : Bool) (x c : ℕ) → accepts ci x c ≡ byte_spec ci x c
unfolding accepts ceq tolower
accepts-eq-byte_spec true x c = refl
accepts-eq-byte_spec false x c = refl

-- One byte that `x` stands for, and `f` of what follows it.
unfoldable pub one_byte : Bool → ℕ → (Bytes → Bool) → Bytes → Bool
one_byte ci x f [] = false
one_byte ci x f (c ∷ t) = byte_spec ci x c && f t

pub one_byte-accepts :
    (ci : Bool) (x : ℕ) (f : Bytes → Bool) (c : ℕ) (t : Bytes)
    → one_byte ci x f (c ∷ t) ≡ (accepts ci x c && f t)
unfolding one_byte
one_byte-accepts ci x f c t = ap (λ b. b && f t) (sym (accepts-eq-byte_spec ci x c))

-- What it means for the whole text to match: a star stands for any bytes, every other byte of the
-- pattern for one byte.
unfoldable pub glob_spec : Bool → Bytes → Bytes → Bool
unfolding some_tail one_byte
glob_spec ci [] [] = true
glob_spec ci [] (c ∷ t) = false
glob_spec ci (x ∷ p) t =
    let rest = glob_spec ci p in if x == b'*' then some_tail rest t else one_byte ci x rest t

pub glob_spec-star :
    (ci : Bool) (x : ℕ) (p : Bytes)
    → (x == star) ≡ true
    → glob_spec ci (x ∷ p) ≡ some_tail (glob_spec ci p)
unfolding glob_spec
glob_spec-star ci x p h = fun_ext (λ t. rw h)

pub glob_spec_byte :
    (ci : Bool) (x : ℕ) (p : Bytes)
    → (x == star) ≡ false
    → glob_spec ci (x ∷ p) ≡ one_byte ci x (glob_spec ci p)
unfolding glob_spec
glob_spec_byte ci x p h = fun_ext (λ t. rw h)

pub or_absorb : (a b : Bool) → (b ≡ true → a ≡ true) → a ≡ (a || b)
or_absorb true b h = refl
or_absorb false b h = ground arith

-- A tail of a tail.
pub some_tail_tail :
    (f : Bytes → Bool) (c : ℕ) (t : Bytes) → some_tail f t ≡ true → some_tail f (c ∷ t) ≡ true
unfolding some_tail
some_tail_tail f c t h = ground arith

some_tail_here : (f : Bytes → Bool) (t : Bytes) → f t ≡ true → some_tail f t ≡ true
unfolding some_tail
some_tail_here f [] h = h
some_tail_here f (c ∷ t) h = ground arith

-- Two stars in a row stand for no more than one.
two_stars : (f : Bytes → Bool) (t : Bytes) → some_tail (some_tail f) t ≡ true → some_tail f t ≡ true
unfolding some_tail
two_stars f [] h = h
two_stars f (c ∷ t) h = ground (arith, two_stars f t)

pub two_stars_at :
    (ci : Bool) (x : ℕ) (p t : Bytes)
    → (x == star) ≡ true
    → some_tail (glob_spec ci (x ∷ p)) t ≡ true
    → some_tail (glob_spec ci p) t ≡ true
two_stars_at ci x p t hx h = two_stars (glob_spec ci p) t (rw (glob_spec-star ci x p hx) at h)

-- Where `x` takes a byte of the text, what follows `x` matches from behind its first byte on.
pub drop_byte :
    (ci : Bool) (x : ℕ) (f : Bytes → Bool) (c : ℕ) (t : Bytes)
    → some_tail (one_byte ci x f) (c ∷ t) ≡ true
    → some_tail f t ≡ true
unfolding some_tail one_byte
drop_byte ci x f c [] h = ground arith
drop_byte ci x f c (d ∷ t) h = ground (arith, drop_byte ci x f d t)

pub only_stars-eq-glob_spec : (ci : Bool) (p : Bytes) → only_stars p ≡ glob_spec ci p []
unfolding only_stars glob_spec
only_stars-eq-glob_spec ci [] = refl
only_stars-eq-glob_spec ci (x ∷ p) = ground (arith, only_stars-eq-glob_spec ci p)
