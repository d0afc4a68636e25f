-- ===== src/Rule/Patterns/Reference.antt =====
-- src/core/pmx_rule.c: lists of patterns by their segments, described without the source's loops.
use proxi_might.Prelude.{
  any, ℕ, Bool, true, false, ◌||◌, ◌&&◌, not, Option, none, some, List, [], ◌∷◌, ◌++◌, ◌==◌, leb,
  if◌then◌else◌, take,
}
use proxi_might.Prelude.Bytes.{Bytes}
use proxi_might.Rule.Glob.Reference.{glob_spec}

-- `c` in front of the first segment.
abbrev pub onto_first : ℕ → List Bytes → List Bytes
onto_first c [] = (c ∷ []) ∷ []
onto_first c (s ∷ ss) = (c ∷ s) ∷ ss

-- The text cut at each semicolon.
unfoldable pub segments : Bytes → List Bytes
segments [] = [] ∷ []
segments (c ∷ s) = let rest = segments s in if c == b';' then [] ∷ rest else onto_first c rest

-- Space, tab, line feed, vertical tab, form feed, carriage return.
abbrev pub blank : ℕ → Bool
blank c = any (λ b. c == b) (32 ∷ 9 ∷ 10 ∷ 11 ∷ 12 ∷ 13 ∷ [])

abbrev pub drop_blanks : Bytes → Bytes
drop_blanks [] = []
drop_blanks (c ∷ s) = let rest = drop_blanks s in if blank c then rest else c ∷ s

abbrev pub backwards : Bytes → Bytes
backwards [] = []
backwards (c ∷ s) = backwards s ++ c ∷ []

-- Without the blanks at both ends.
abbrev pub trimmed : Bytes → Bytes
trimmed s = backwards (drop_blanks (backwards (drop_blanks s)))

-- What is left of a segment, which is a pattern if it is anything: its first 511 bytes.
abbrev pub pattern_spec : Bool → Bytes → Bytes → Bool
pattern_spec ci text [] = false
pattern_spec ci text (c ∷ pat) = glob_spec ci (take 511 (c ∷ pat)) text

abbrev pub text_of : Option Bytes → Bytes
text_of none = []
text_of (some text) = text

-- The empty list matches everything, another one what one of its patterns matches.
unfoldable pub list_spec : Bytes → Option Bytes → Bool → Bool
unfolding segments glob_spec
list_spec [] text ci = true
list_spec (c ∷ s) text ci =
    any (λ seg. pattern_spec ci (text_of text) (trimmed seg)) (segments (c ∷ s))

abbrev pub letter : ℕ → Bool
letter c = (leb b'A' c && leb c b'Z') || (leb b'a' c && leb c b'z')

-- A letter and no colon.
abbrev pub needs_name : Bytes → Bool
needs_name seg = any letter seg && not (any (λ c. c == b':') seg)
