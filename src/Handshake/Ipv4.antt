-- ===== src/Handshake/Ipv4.antt =====
-- src/core/pmx_socks.c: parse_ipv4, with what `sscanf` does at `%u` for a 32-bit `unsigned long`.
use proxi_might.Prelude.{
  ℕ, ◌-◌, ◌%◌, ◌^◌, min, Bool, true, false, ◌&&◌, Option, none, some, [], ◌∷◌, leb, ◌==◌,
  if◌then◌else◌,
}
use proxi_might.Prelude.Bytes.{Bytes}
use proxi_might.Prelude.Decimal.{read_digits, starts_digit, skip_spaces}
pub mod Literals

abbrev ulong_max : ℕ
ulong_max = 2 ^ 32 - 1

abbrev pub unsigned_value : Bool → ℕ × Bytes → ℕ × Bytes
unsigned_value false (n, s) = (min n ulong_max, s)
unsigned_value true (n, s) = ((2 ^ 32 - min n ulong_max) % 2 ^ 32, s)

abbrev pub unsigned_digits : Bool → Bytes → Option (ℕ × Bytes)
unsigned_digits negative s =
    if starts_digit s then some (unsigned_value negative (read_digits 0 s)) else none

unfoldable pub signed_digits : Bytes → Option (ℕ × Bytes)
unfolding starts_digit read_digits
signed_digits [] = none
signed_digits (c ∷ s) =
    if c == b'-'
    then unsigned_digits true s
    else if c == b'+'
    then unsigned_digits false s
    else unsigned_digits false (c ∷ s)

-- %u: blanks, a sign and digits
unfoldable pub scan_unsigned : Bytes → Option (ℕ × Bytes)
unfolding skip_spaces signed_digits
scan_unsigned s = signed_digits (skip_spaces s)

abbrev pub behind_dot : Bytes → Option Bytes
behind_dot [] = none
behind_dot (c ∷ s) = if c == b'.' then some s else none

-- The four octets, if nothing follows them.
abbrev pub octets : ℕ → ℕ → ℕ → ℕ → Bytes → Option Bytes
octets a b c d (_ ∷ _) = none
octets a b c d [] =
    if leb a 255 && leb b 255 && leb c 255 && leb d 255 then some (a ∷ b ∷ c ∷ d ∷ []) else none

infixl 5 ◌>>=◌
abbrev pub ◌>>=◌ : {A B : Type 0} → Option A → (A → Option B) → Option B
none >>= f = none
some a >>= f = f a

-- parse_ipv4, `none` where it returns false
unfoldable pub parse_ipv4 : Bytes → Option Bytes
unfolding scan_unsigned
parse_ipv4 host = do
  (a, s1) ← scan_unsigned host
  t1 ← behind_dot s1
  (b, s2) ← scan_unsigned t1
  t2 ← behind_dot s2
  (c, s3) ← scan_unsigned t2
  t3 ← behind_dot s3
  (d, s4) ← scan_unsigned t3
  octets a b c d s4
