-- ===== src/Prelude/Bytes.antt =====
-- C strings: the bytes before the terminating NUL. Character classes are those of the "C" locale.
-- include/proximight/pmx_types.h
use Prim.Native.Nat.{ℕ, zero, suc, ◌+◌}
use Prim.Native.Char.{code}
use Prim.Native.String.{String}
use mathlib.Core.Bool.{Bool, true, false, ◌&&◌, ◌||◌}
use mathlib.Core.Path.{◌≡◌, refl}
use mathlib.Core.Logic.{◌↔◌}
use native.Mathlib.Omega.{arith}
use mathlib.Core.List.{List, [], ◌∷◌}
use proxi_might.Prelude.Tests.{leb, ◌==◌, if◌then◌else◌}
use proxi_might.Prelude.Lists.{take}

abbrev pub Bytes : Type 0
Bytes = List ℕ

-- The bytes of an ASCII text.
abbrev pub codes : String → Bytes
codes String.[] = []
codes (String.◌∷◌ c s) = code c ∷ codes s

-- pmx_strlcpy into a buffer of `dst_size` bytes: what the buffer then holds as a C string.
-- A size of 0 leaves the buffer as it was, so there `old` is what it held.
unfoldable pub strlcpy : Bytes → Bytes → ℕ → Bytes
strlcpy old src zero = old
strlcpy old src (suc n) = take n src

unfoldable pub isspace : ℕ → Bool
isspace c = c == 32 || (leb 9 c && leb c 13)

unfoldable pub isdigit : ℕ → Bool
isdigit c = leb 48 c && leb c 57

unfoldable pub isalpha : ℕ → Bool
isalpha c = (leb 65 c && leb c 90) || (leb 97 c && leb c 122)

unfoldable pub tolower : ℕ → ℕ
tolower c = if leb 65 c && leb c 90 then c + 32 else c

unfoldable pub byte_eq : Bytes → Bytes → Bool
byte_eq [] [] = true
byte_eq (a ∷ s) (b ∷ t) = a == b && byte_eq s t
byte_eq _ _ = false

pub byte_eq_iff : (s t : Bytes) → (byte_eq s t ≡ true) ↔ (s ≡ t)
unfolding byte_eq
byte_eq_iff [] [] = (λ _. refl, λ _. refl)
byte_eq_iff [] (b ∷ t) = (λ h. cc, λ h. cc)
byte_eq_iff (a ∷ s) [] = (λ h. cc, λ h. cc)
byte_eq_iff (a ∷ s) (b ∷ t) = ground (arith, byte_eq_iff s t)
