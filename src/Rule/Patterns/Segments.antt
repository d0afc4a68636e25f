-- ===== src/Rule/Patterns/Segments.antt =====
-- src/core/pmx_rule.c: the loops over a list of patterns, and its segments.
use proxi_might.Prelude.{
  any, ◌-◌, ◌++◌, ◌∙◌, take, ℕ, zero, suc, ◌≤◌, ◌<◌, ◌≡◌, refl, ap, Bool, false, ◌&&◌, not, Option,
  none, some, List, [], ◌∷◌, ◌==◌, if◌then◌else◌, length, arith, inl, inr, Bool-cases, Option-cases,
}
use proxi_might.Prelude.Bytes.{Bytes}
use proxi_might.Prelude.Bytes.{isspace, isalpha}
use proxi_might.Rule.Glob.{glob_match}
use proxi_might.Rule.Glob.Correct.{glob_match-eq-glob_spec}
use proxi_might.Rule.Patterns.Reference.{
  onto_first, segments, blank, drop_blanks, backwards, trimmed, pattern_spec, text_of, list_spec,
  letter, needs_name,
}
use proxi_might.Rule.Patterns.{
  trim_front, trim_back, is_empty, max_pattern, semicolon, segment, after_segment, segment_hits,
  list_loop, or_empty, glob_list_match, has_alpha, has_colon, needs_loop, host_pattern_needs_names,
}

abbrev rest_segments : Option Bytes → List Bytes
rest_segments none = []
rest_segments (some r) = segments r

segments-eq : (s : Bytes) → segments s ≡ segment s ∷ rest_segments (after_segment s)
unfolding segments segment after_segment
segments-eq [] = refl
segments-eq (c ∷ s) = elim (Bool-cases (c == semicolon)) [
  | inl e ↦ rw e
  | inr e ↦ rw e (ap (onto_first c) (segments-eq s))
]

length-after_segment : (s r : Bytes) → after_segment s ≡ some r → length r < length s
unfolding after_segment
length-after_segment [] r h = cc
length-after_segment (c ∷ s) r h = elim (Bool-cases (c == semicolon)) [
  | inl e ↦ ground arith
  | inr e ↦ ground (arith, length-after_segment s r)
]

-- A segment with nothing in it is skipped.
segment_hits-nil : (text : Bytes) (ci : Bool) → segment_hits text ci [] ≡ false
unfolding segment_hits
segment_hits-nil text ci = refl

list_loop_lem :
    (f : ℕ) (s text : Bytes) (ci : Bool)
    → length s ≤ f
    → list_loop f s text ci ≡ any (segment_hits text ci) (segments s)
unfolding list_loop
list_loop_lem f [] text ci h = unfold segments in simp (segment_hits-nil)
list_loop_lem zero (c ∷ s) text ci h = absurd (omega arith)
list_loop_lem (suc f) (c ∷ s) text ci h =
    elim (Bool-cases (segment_hits text ci (segment (c ∷ s)))) [
      | inl hit ↦ rw (segments-eq (c ∷ s), hit, list_loop)
      | inr miss ↦ elim (Option-cases (after_segment (c ∷ s))) [
        | inl e ↦ rw (segments-eq (c ∷ s), miss, e, list_loop)
        | inr (r, e) ↦
            rw (segments-eq (c ∷ s), miss, e, list_loop)
              (list_loop_lem f r text ci (omega (arith, length-after_segment (c ∷ s) r e)))
      ]
    ]

any-ext : (f g : Bytes → Bool) (ss : List Bytes) → ((s : Bytes) → f s ≡ g s) → any f ss ≡ any g ss
any-ext f g [] h = refl
any-ext f g (s ∷ ss) h = rw (h s, any-ext f g ss h) refl

isspace-blank : (c : ℕ) → isspace c ≡ blank c
unfolding isspace
isspace-blank c = ground arith

trim_front-drop_blanks : (s : Bytes) → trim_front s ≡ drop_blanks s
unfolding trim_front
trim_front-drop_blanks [] = refl
trim_front-drop_blanks (c ∷ s) = rw (isspace-blank c, trim_front-drop_blanks s) refl

-- One byte more at the end.
drop_blanks-append :
    (s : Bytes) (c : ℕ)
    → drop_blanks (s ++ c ∷ [])
      ≡ (if is_empty (drop_blanks s) then drop_blanks (c ∷ []) else drop_blanks s ++ c ∷ [])
drop_blanks-append [] c = refl
drop_blanks-append (b ∷ s) c = elim (Bool-cases (blank b)) [
  | inl e ↦ rw e (drop_blanks-append s c)
  | inr e ↦ rw e refl
]

is_empty-backwards : (s : Bytes) → is_empty (backwards s) ≡ is_empty s
is_empty-backwards [] = refl
is_empty-backwards (c ∷ s) = by_front (backwards s) c
  where
    by_front : (t : Bytes) (c : ℕ) → is_empty (t ++ c ∷ []) ≡ false
    by_front [] c = refl
    by_front (b ∷ t) c = refl

backwards-append : (s : Bytes) (c : ℕ) → backwards (s ++ c ∷ []) ≡ c ∷ backwards s
backwards-append [] c = refl
backwards-append (b ∷ s) c = ap (λ t. t ++ b ∷ []) (backwards-append s c)

trim_back-drop_blanks : (s : Bytes) → trim_back s ≡ backwards (drop_blanks (backwards s))
unfolding trim_back
trim_back-drop_blanks [] = refl
trim_back-drop_blanks (c ∷ s) =
    rw (trim_back-drop_blanks s, drop_blanks-append (backwards s) c, isspace-blank c)
      (by_rest (drop_blanks (backwards s)))
  where
    by_rest :
        (d : Bytes)
        → (if blank c && is_empty (backwards d) then [] else c ∷ backwards d)
          ≡ backwards (if is_empty d then drop_blanks (c ∷ []) else d ++ c ∷ [])
    by_rest [] = elim (Bool-cases (blank c)) [ inl e ↦ rw e refl | inr e ↦ rw e refl ]
    by_rest (b ∷ d) = elim (Bool-cases (blank c)) [
      | inl e ↦ rw (e, is_empty-backwards (b ∷ d), backwards-append (b ∷ d) c) refl
      | inr e ↦ rw (e, backwards-append (b ∷ d) c) refl
    ]

pattern_hits :
    (text : Bytes) (ci : Bool) (pat : Bytes)
    → (not (is_empty pat) && glob_match (take (max_pattern - 1) pat) text ci)
      ≡ pattern_spec ci text pat
pattern_hits text ci [] = refl
pattern_hits text ci (c ∷ pat) = glob_match-eq-glob_spec (take 511 (c ∷ pat)) text ci

segment_hits-eq-pattern_spec :
    (text : Bytes) (ci : Bool) (seg : Bytes)
    → segment_hits text ci seg ≡ pattern_spec ci text (trimmed seg)
unfolding segment_hits
segment_hits-eq-pattern_spec text ci seg =
    rw (trim_front-drop_blanks seg, trim_back-drop_blanks (drop_blanks seg))
      (pattern_hits text ci (trimmed seg))

or_empty-text_of : (text : Option Bytes) → or_empty text ≡ text_of text
or_empty-text_of none = refl
or_empty-text_of (some t) = refl

-- A list of patterns matches a text exactly if the list is empty or one of its segments between
-- semicolons, without the blanks at its ends, has something left of which the first 511 bytes
-- match the text by the specification of globs; a missing text counts as an empty one.
pub glob_list_match-eq-list_spec :
    (list : Bytes) (text : Option Bytes) (ci : Bool)
    → glob_list_match list text ci ≡ list_spec list text ci
unfolding glob_list_match list_spec
glob_list_match-eq-list_spec [] text ci = refl
glob_list_match-eq-list_spec (c ∷ s) text ci =
    list_loop_lem (suc (length s)) (c ∷ s) (or_empty text) ci (omega arith)
    ∙ any-ext (segment_hits (or_empty text) ci) _ (segments (c ∷ s))
        (segment_hits-eq-pattern_spec (or_empty text) ci)
    ∙ ap (λ t. any (λ seg. pattern_spec ci t (trimmed seg)) (segments (c ∷ s)))
        (or_empty-text_of text)

abbrev needs_code : Bytes → Bool
needs_code seg = has_alpha seg && not (has_colon seg)

has_alpha-any : (s : Bytes) → has_alpha s ≡ any letter s
unfolding has_alpha
has_alpha-any [] = refl
has_alpha-any (c ∷ s) =
    let e : isalpha c ≡ letter c = unfold isalpha in ground arith in rw (e, has_alpha-any s) refl

has_colon-any : (s : Bytes) → has_colon s ≡ any (λ c. c == b':') s
unfolding has_colon
has_colon-any [] = refl
has_colon-any (c ∷ s) =
    let e : (not (isalpha c) && c == b':') ≡ (c == b':') = unfold isalpha in ground arith in
    rw (e, has_colon-any s) refl

needs_code-eq-needs_name : (s : Bytes) → needs_code s ≡ needs_name s
needs_code-eq-needs_name s = rw (has_alpha-any s, has_colon-any s) refl

needs_loop_lem : (f : ℕ) (s : Bytes) → length s ≤ f → needs_loop f s ≡ any needs_code (segments s)
unfolding needs_loop
needs_loop_lem f [] h = unfold segments has_alpha in refl
needs_loop_lem zero (c ∷ s) h = absurd (omega arith)
needs_loop_lem (suc f) (c ∷ s) h = elim (Bool-cases (needs_code (segment (c ∷ s)))) [
  | inl hit ↦ rw (segments-eq (c ∷ s), hit, needs_loop)
  | inr miss ↦ elim (Option-cases (after_segment (c ∷ s))) [
    | inl e ↦ rw (segments-eq (c ∷ s), miss, e, needs_loop)
    | inr (r, e) ↦
        rw (segments-eq (c ∷ s), miss, e, needs_loop)
          (needs_loop_lem f r (omega (arith, length-after_segment (c ∷ s) r e)))
  ]
]

-- A host pattern needs names exactly if one of its segments between semicolons has an ASCII
-- letter and no colon.
pub host_pattern_needs_names-eq-any :
    (pattern : Bytes) → host_pattern_needs_names pattern ≡ any needs_name (segments pattern)
unfolding host_pattern_needs_names
host_pattern_needs_names-eq-any pattern =
    needs_loop_lem (length pattern) pattern (omega arith)
    ∙ any-ext needs_code needs_name (segments pattern) needs_code-eq-needs_name
