-- ===== src/Rule/Glob.antt =====
-- src/core/pmx_rule.c: the glob matcher, which goes back to the last star only.
use proxi_might.Prelude.{
  ℕ, zero, suc, ◌+◌, ◌*◌, Bool, true, false, ◌||◌, Option, none, some, List, [], ◌∷◌, ◌==◌,
  if◌then◌else◌, length,
}
use proxi_might.Prelude.Bytes.{Bytes, tolower}
pub mod Reference
pub mod Correct

abbrev pub star : ℕ
star = 42

-- ceq
unfoldable pub ceq : ℕ → ℕ → Bool → Bool
ceq a b ci = if ci then tolower a == tolower b else a == b

-- The test of a pattern's byte against a byte `c` of the text. At the end of the pattern the
-- source reads the NUL there, which is neither `?` nor equal to a byte of the text.
unfoldable pub accepts : Bool → ℕ → ℕ → Bool
accepts ci x c = x == b'?' || ceq x c ci

-- `star_p + 1` and `star_t`, present when `star_p` is not NULL.
abbrev pub Back : Type 0
Back = Option (Bytes × Bytes)

-- while (*p == '*') p++; return *p == '\0';
pub only_stars : Bytes → Bool
only_stars [] = true
only_stars (x ∷ p) = let rest = only_stars p in if x == star then rest else false

-- The branches of a mismatch. `star_t` never stands at the end of the text there.
pub retry : Back → (Bytes → Bytes → Back → Option Bool) → Option Bool
retry none next = some false
retry (some (bp, [])) next = none
retry (some (bp, _ ∷ bt)) next = next bp bt (some (bp, bt))

-- `none` means that the fuel ran out.
pub glob_loop : ℕ → Bool → Bytes → Bytes → Back → Option Bool
glob_loop zero ci p t back = none
glob_loop (suc f) ci p [] back = some (only_stars p)
glob_loop (suc f) ci [] (c ∷ t) back = retry back (glob_loop f ci)
glob_loop (suc f) ci (x ∷ p) (c ∷ t) back =
    let at_star = glob_loop f ci p (c ∷ t) (some (p, c ∷ t)) in
    let onward = glob_loop f ci p t back in
    let again = retry back (glob_loop f ci) in
    if x == star then at_star else if accepts ci x c then onward else again

pub glob_fuel : Bytes → Bytes → ℕ
glob_fuel p t = (length t + 1) * (length p + 1) + 1

-- `none` stands for fuel that ran out.
answer : Option Bool → Bool
answer (some b) = b
answer none = false

-- pmx_glob_match on strings that are not NULL
unfoldable pub glob_match : Bytes → Bytes → Bool → Bool
unfolding glob_loop retry accepts ceq tolower only_stars glob_fuel answer
glob_match p t ci = answer (glob_loop (glob_fuel p t) ci p t none)
