-- ===== src/Prelude/Decimal.antt =====
-- Numbers in decimal text: C's `%u`, and `strtol` with base 10. A `long` has 32 bits, as on the
-- program's Windows target; with 64 bits every comparison with a port has the same outcome.
use Prim.Native.Nat.{ℕ, zero, suc, ◌+◌, ◌-◌, ◌*◌, ◌/◌, ◌%◌, ◌^◌, ◌<◌, min}
use mathlib.Core.Path.{◌≡◌, refl, ◌∙◌}
use mathlib.Core.Bool.{Bool, true, false}
use mathlib.Core.Option.{Option, none, some}
use mathlib.Core.List.{[], ◌∷◌, ◌++◌, append_assoc}
use mathlib.Core.Logic.{inl, inr}
use native.Mathlib.Omega.{arith}
use proxi_might.Prelude.Tests.{ltb, leb, ltb→lt, ◌==◌, if◌then◌else◌, Bool-cases}
use proxi_might.Prelude.Bytes.{Bytes, isdigit, isspace}

-- `negsuc n` is -(n + 1).
pub data ℤ : Type 0 where
  pos : ℕ → ℤ
  negsuc : ℕ → ℤ

abbrev pub negate : ℕ → ℤ
negate zero = pos 0
negate (suc n) = negsuc n

abbrev pub le_int : ℤ → ℤ → Bool
le_int (pos a) (pos b) = leb a b
le_int (pos a) (negsuc b) = false
le_int (negsuc a) (pos b) = true
le_int (negsuc a) (negsuc b) = leb b a

-- v > 0 ? v : d
abbrev pub positive_or : ℤ → ℕ → ℕ
positive_or (pos (suc n)) d = suc n
positive_or _ d = d

-- The digits at the head of the text, read onto `acc`, and what follows them.
unfoldable pub read_digits : ℕ → Bytes → ℕ × Bytes
unfolding isdigit
read_digits acc [] = (acc, [])
read_digits acc (c ∷ s) =
    let rest = read_digits (acc * 10 + (c - 48)) s in if isdigit c then rest else (acc, c ∷ s)

unfoldable pub starts_digit : Bytes → Bool
unfolding isdigit
starts_digit [] = false
starts_digit (c ∷ s) = isdigit c

unfoldable pub skip_spaces : Bytes → Bytes
unfolding isspace
skip_spaces [] = []
skip_spaces (c ∷ s) = let rest = skip_spaces s in if isspace c then rest else c ∷ s

abbrev long_max : ℕ
long_max = 2 ^ 31 - 1

positive : ℕ × Bytes → ℤ × Bytes
positive (n, s) = (pos (min n long_max), s)

negative : ℕ × Bytes → ℤ × Bytes
negative (n, s) = (negate (min n (long_max + 1)), s)

signed : Bytes → Option (ℤ × Bytes)
unfolding positive negative starts_digit read_digits
signed [] = none
signed (c ∷ s) =
    if c == b'-'
    then if starts_digit s then some (negative (read_digits 0 s)) else none
    else if c == b'+'
    then if starts_digit s then some (positive (read_digits 0 s)) else none
    else if starts_digit (c ∷ s)
    then some (positive (read_digits 0 (c ∷ s)))
    else none

-- The value and `*end`; `none` where no number was read, so that `*end` is the text itself.
unfoldable pub strtol : Bytes → Option (ℤ × Bytes)
unfolding signed skip_spaces
strtol s = signed (skip_spaces s)

-- The digits of a number on fuel; `n` itself is fuel enough.
decimal_on : ℕ → ℕ → Bytes
decimal_on zero n = (48 + n % 10) ∷ []
decimal_on (suc f) n =
    let front = decimal_on f (n / 10) in
    if ltb n 10 then (48 + n) ∷ [] else front ++ (48 + n % 10) ∷ []

-- %u
unfoldable pub decimal : ℕ → Bytes
unfolding decimal_on
decimal n = decimal_on n n

read_digits-digit :
    (acc d : ℕ) (s : Bytes) → d < 10 → read_digits acc ((48 + d) ∷ s) ≡ read_digits (acc * 10 + d) s
unfolding read_digits
read_digits-digit acc d s h =
    let e : isdigit (48 + d) ≡ true = unfold isdigit in ground arith in
    let e' : 48 + d - 48 ≡ d = omega arith in rw (e, e')

read_digits-decimal_on :
    (f n : ℕ) (s : Bytes) → n < f + 1 → read_digits 0 (decimal_on f n ++ s) ≡ read_digits n s
unfolding decimal_on
read_digits-decimal_on zero n s h =
    let e : n % 10 ≡ n = omega arith in
    let e' : 0 * 10 + n ≡ n = omega arith in rw e (read_digits-digit 0 n s (omega arith) ∙ rw e')
read_digits-decimal_on (suc f) n s h = elim (Bool-cases (ltb n 10)) [
  | inl small ↦
      let e' : 0 * 10 + n ≡ n = omega arith in
      rw small (read_digits-digit 0 n s (ltb→lt n 10 small) ∙ rw e')
  | inr large ↦
      let big : 9 < n = ground arith in
      let e' : n / 10 * 10 + n % 10 ≡ n = omega arith in
      rw (large, append_assoc)
        (read_digits-decimal_on f (n / 10) ((48 + n % 10) ∷ s) (omega arith)
          ∙ read_digits-digit (n / 10) (n % 10) s (omega arith)
          ∙ rw e')
]

-- A printed number is read back, up to where its digits end.
pub read_digits-decimal :
    (n : ℕ) (s : Bytes) → starts_digit s ≡ false → read_digits 0 (decimal n ++ s) ≡ (n, s)
unfolding decimal read_digits starts_digit
read_digits-decimal n [] h = read_digits-decimal_on n n [] (omega arith)
read_digits-decimal n (c ∷ s) h = read_digits-decimal_on n n (c ∷ s) (omega arith) ∙ rw h

decimal_on-head :
    (f n : ℕ) (s : Bytes) → (d : ℕ) × (t : Bytes) × (d < 10) × (decimal_on f n ++ s ≡ (48 + d) ∷ t)
unfolding decimal_on
decimal_on-head zero n s = (n % 10, s, omega arith, refl)
decimal_on-head (suc f) n s = elim (Bool-cases (ltb n 10)) [
  | inl small ↦ (n, s, ltb→lt n 10 small, rw small)
  | inr large ↦
      let (d, t, hd, e) = decimal_on-head f (n / 10) ((48 + n % 10) ∷ s) in
      (d, t, hd, rw (large, append_assoc) e)
]

-- A printed number begins with a digit.
pub decimal-head :
    (n : ℕ) (s : Bytes) → (d : ℕ) × (t : Bytes) × (d < 10) × (decimal n ++ s ≡ (48 + d) ∷ t)
unfolding decimal
decimal-head n s = decimal_on-head n n s

signed-digit :
    (d : ℕ) (t : Bytes)
    → d < 10
    → signed ((48 + d) ∷ t) ≡ some (positive (read_digits 0 ((48 + d) ∷ t)))
unfolding signed
signed-digit d t h =
    let e : ((48 + d) == b'-') ≡ false = ground arith in
    let e' : ((48 + d) == b'+') ≡ false = ground arith in
    let e'' : starts_digit ((48 + d) ∷ t) ≡ true = unfold starts_digit isdigit in ground arith in
    rw (e, e', e'')

-- `strtol` reads back a printed number that a `long` holds.
pub strtol-decimal :
    (n : ℕ) (s : Bytes)
    → n < 2 ^ 31
    → starts_digit s ≡ false
    → strtol (decimal n ++ s) ≡ some (pos n, s)
unfolding strtol
strtol-decimal n s hn hs =
    let (d, t, hd, e) = decimal-head n s in
    let sp : isspace (48 + d) ≡ false = unfold isspace in ground arith in
    let m : min n long_max ≡ n = omega arith in
    let start : signed (skip_spaces (decimal n ++ s))
        ≡ some (positive (read_digits 0 (decimal n ++ s))) =
      rw e (unfold skip_spaces in rw sp (signed-digit d t hd)) in
    start ∙ rw (read_digits-decimal n s hs) (unfold positive in rw m)

strtol_samples :
    (strtol (48 ∷ 49 ∷ 44 ∷ []) ≡ some (pos 1, 44 ∷ []))
    × (strtol (32 ∷ 45 ∷ 49 ∷ []) ≡ some (negsuc 0, []))
    × (strtol (45 ∷ 44 ∷ []) ≡ none)
unfolding strtol
strtol_samples = (refl, refl, refl)
