-- ===== src/Rule/Patterns.antt =====
-- src/core/pmx_rule.c: lists of globs, separated by semicolons.
use proxi_might.Prelude.{
  ℕ, zero, suc, ◌-◌, Bool, true, false, ◌||◌, ◌&&◌, not, Option, none, some, List, [], ◌∷◌, ◌==◌,
  if◌then◌else◌, length, take,
}
use proxi_might.Prelude.Bytes.{Bytes, isspace, isalpha}
use proxi_might.Rule.Glob.{glob_match}
pub mod Reference
pub mod Segments

abbrev pub max_pattern : ℕ
max_pattern = 512

abbrev pub semicolon : ℕ
semicolon = 59

-- The text before the first semicolon.
unfoldable pub segment : Bytes → Bytes
segment [] = []
segment (c ∷ s) = let rest = segment s in if c == semicolon then [] else c ∷ rest

-- strchr(start, ';') + 1
unfoldable pub after_segment : Bytes → Option Bytes
after_segment [] = none
after_segment (c ∷ s) = let rest = after_segment s in if c == semicolon then some s else rest

abbrev pub is_empty : Bytes → Bool
is_empty [] = true
is_empty (_ ∷ _) = false

unfoldable pub trim_front : Bytes → Bytes
unfolding isspace
trim_front [] = []
trim_front (c ∷ s) = let rest = trim_front s in if isspace c then rest else c ∷ s

unfoldable pub trim_back : Bytes → Bytes
unfolding isspace
trim_back [] = []
trim_back (c ∷ s) = let rest = trim_back s in if isspace c && is_empty rest then [] else c ∷ rest

-- One segment's test: trimmed, cut to the size of `pat`, and matched if anything is left.
unfoldable pub segment_hits : Bytes → Bool → Bytes → Bool
unfolding trim_front trim_back
segment_hits text ci seg =
    let pat = trim_back (trim_front seg) in
    not (is_empty pat) && glob_match (take (max_pattern - 1) pat) text ci

list_loop : ℕ → Bytes → Bytes → Bool → Bool
list_loop f [] text ci = false
list_loop zero (c ∷ s) text ci = false
list_loop (suc f) (c ∷ s) text ci = elim (segment_hits text ci (segment (c ∷ s))) [
  | true ↦ true
  | false ↦ elim (after_segment (c ∷ s)) [ none ↦ false | some r ↦ list_loop f r text ci ]
]

abbrev pub or_empty : Option Bytes → Bytes
or_empty none = []
or_empty (some t) = t

-- pmx_glob_list_match. The fuel is the length of the list.
unfoldable pub glob_list_match : Bytes → Option Bytes → Bool → Bool
unfolding list_loop segment_hits segment after_segment
glob_list_match [] text ci = true
glob_list_match (c ∷ s) text ci = list_loop (suc (length s)) (c ∷ s) (or_empty text) ci

pub has_alpha : Bytes → Bool
unfolding isalpha
has_alpha [] = false
has_alpha (c ∷ s) = isalpha c || has_alpha s

pub has_colon : Bytes → Bool
unfolding isalpha
has_colon [] = false
has_colon (c ∷ s) = (not (isalpha c) && c == b':') || has_colon s

needs_loop : ℕ → Bytes → Bool
needs_loop f [] = false
needs_loop zero (c ∷ s) = false
needs_loop (suc f) (c ∷ s) =
    elim (has_alpha (segment (c ∷ s)) && not (has_colon (segment (c ∷ s)))) [
      | true ↦ true
      | false ↦ elim (after_segment (c ∷ s)) [ none ↦ false | some r ↦ needs_loop f r ]
    ]

-- pmx_host_pattern_needs_names
unfoldable pub host_pattern_needs_names : Bytes → Bool
unfolding needs_loop has_alpha has_colon segment after_segment
host_pattern_needs_names pattern = needs_loop (length pattern) pattern
