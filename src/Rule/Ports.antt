-- ===== src/Rule/Ports.antt =====
-- src/core/pmx_rule.c: port specifications such as "80,443,8000-8080".
use proxi_might.Prelude.{
  ℕ, zero, suc, ◌+◌, Bool, true, false, ◌||◌, ◌&&◌, not, Option, none, some, List, [], ◌∷◌, ◌==◌,
  if◌then◌else◌, length,
}
use proxi_might.Prelude.Bytes.{Bytes}
use proxi_might.Prelude.Decimal.{ℤ, pos, negsuc, le_int, strtol}
use proxi_might.Status.{Status, ok, err_parse}
pub mod Printed
pub mod Correct

-- while (*s == ' ') s++;
unfoldable pub skip_blanks : Bytes → Bytes
skip_blanks [] = []
skip_blanks (c ∷ s) = let rest = skip_blanks s in if c == 32 then rest else c ∷ s

-- while (*s == ' ' || *s == ',') s++;
unfoldable pub skip_separators : Bytes → Bytes
skip_separators [] = []
skip_separators (c ∷ s) =
    let rest = skip_separators s in if c == 32 || c == b',' then rest else c ∷ s

-- The upper end after a dash, or `a` where no number stands there.
upper_or : ℤ → Bytes → Option (ℤ × Bytes) → ℤ × Bytes
upper_or a s none = (a, s)
upper_or a s (some found) = found

-- What follows the first number: a dash and the upper end, or nothing of a range.
range_end : ℤ → Bytes → ℤ × Bytes
unfolding upper_or
range_end a [] = (a, [])
range_end a (c ∷ s) =
    if c == b'-' then upper_or a (skip_blanks s) (strtol (skip_blanks s)) else (a, c ∷ s)

-- The two ends, swapped if the first is the larger.
unfoldable pub within : ℤ → ℤ → ℕ → Bool
within a b port =
    if le_int a b
    then le_int a (pos port) && le_int (pos port) b
    else le_int b (pos port) && le_int (pos port) a

-- One round from a text with something in it: `none` if the port is in the range, and otherwise
-- the text to go on with.
pub match_item : ℕ → ℕ → Bytes → Option Bytes
unfolding range_end within
match_item port c s = elim (strtol (c ∷ s)) [
  | none ↦ some s
  | some (a, s1) ↦
      let (b, s2) = range_end a (skip_blanks s1) in if within a b port then none else some s2
]

pub match_loop : ℕ → ℕ → Bytes → Bool
match_loop zero port s = false
match_loop (suc f) port s = elim (skip_separators s) [
  | [] ↦ false
  | c ∷ r ↦ elim (match_item port c r) [ none ↦ true | some t ↦ match_loop f port t ]
]

-- pmx_port_spec_match. Every round but the last takes at least one byte of the text.
unfoldable pub port_spec_match : Bytes → ℕ → Bool
unfolding match_loop match_item skip_separators skip_blanks
port_spec_match [] port = true
port_spec_match (c ∷ s) port = match_loop (length (c ∷ s) + 1) port (c ∷ s)

-- A number that the editor accepts: not (a < 0 || a > 65535).
abbrev valid_port : ℤ → Bool
valid_port a = le_int (pos 0) a && le_int a (pos 65535)

-- Behind an item: the end of the text or a comma.
item_end : Bytes → Option Bytes
item_end [] = some []
item_end (c ∷ s) = if c == b',' then some (c ∷ s) else none

valid_upper : Option (ℤ × Bytes) → Option Bytes
unfolding item_end
valid_upper none = none
valid_upper (some (b, s)) = if valid_port b then item_end (skip_blanks s) else none

valid_end : Bytes → Option Bytes
unfolding valid_upper item_end
valid_end [] = some []
valid_end (c ∷ s) =
    if c == b'-' then valid_upper (strtol (skip_blanks s)) else item_end (skip_blanks (c ∷ s))

-- One round: `none` is PMX_ERR_PARSE.
validate_item : ℕ → Bytes → Option Bytes
unfolding valid_end
validate_item c s = elim (strtol (c ∷ s)) [
  | none ↦ none
  | some (a, s1) ↦ if valid_port a then valid_end (skip_blanks s1) else none
]

validate_loop : ℕ → Bool → Bytes → Status
validate_loop zero saw s = err_parse
validate_loop (suc f) saw s = elim (skip_separators s) [
  | [] ↦ if saw then ok else err_parse
  | c ∷ r ↦ elim (validate_item c r) [ none ↦ err_parse | some t ↦ validate_loop f true t ]
]

-- pmx_port_spec_validate
unfoldable pub port_spec_validate : Bytes → Status
unfolding validate_loop validate_item skip_separators skip_blanks
port_spec_validate [] = ok
port_spec_validate (c ∷ s) = validate_loop (length (c ∷ s) + 1) false (c ∷ s)
