-- ===== src/Rule/Ports/Correct.antt =====
-- src/core/pmx_rule.c: printed port specifications, validated and matched.
use proxi_might.Prelude.{
  ℕ, zero, suc, ◌+◌, ◌≤◌, ◌<◌, ◌^◌, ◌≡◌, refl, ◌∙◌, Bool, true, false, Option, none, some, List, [],
  ◌∷◌, ◌++◌, length, arith, length-append,
}
use proxi_might.Prelude.Bytes.{Bytes}
use proxi_might.Prelude.Decimal.{pos, decimal, strtol, strtol-decimal, decimal-head}
use proxi_might.Status.{ok}
use proxi_might.Rule.Ports.{
  skip_blanks, skip_separators, port_spec_match, item_end, valid_port, valid_upper, valid_end,
  validate_item, validate_loop, port_spec_validate,
}
use proxi_might.Rule.Ports.Printed.{
  Upper, Item, blanks, upper_text, item_text, tail_text, body, print, high_of, covers, IsPorts,
  IsRest, skip_separators-blanks, skip_separators-decimal, skip_blanks-blanks, skip_blanks-decimal,
  skip_blanks-rest, starts_digit-blanks, starts_digit-rest, starts_digit-upper, tail_text-IsRest,
  skip_separators-left_over, match_loop-body,
}

length-le-append : (s t : Bytes) → length t ≤ length (s ++ t)
length-le-append s t = omega (arith, length-append s t)

length-le-upper_text : (u : Option Upper) (r : Bytes) → length r ≤ length (upper_text u r)
length-le-upper_text none r = omega arith
length-le-upper_text (some u) r =
    let t = decimal u.high ++ r in
    let t' = blanks u.after ++ t in
    omega (
      arith,
      length-le-append (decimal u.high) r,
      length-le-append (blanks u.after) t,
      length-le-append (blanks u.before) (b'-' ∷ t'),
    )

-- An item takes a byte at least.
length-item_text : (i : Item) (r : Bytes) → length r + 1 ≤ length (item_text i r)
length-item_text i r =
    let b = blanks i.trail ++ r in
    let u = upper_text i.upper b in
    let (d, t, hd, e) = decimal-head i.low [] in
    let h : 1 ≤ length (decimal i.low ++ []) = rw e (omega arith) in
    omega (
      arith,
      h,
      length-append (decimal i.low) [],
      length-append (decimal i.low) u,
      length-le-append (blanks i.trail) r,
      length-le-upper_text i.upper b,
    )

length-body : (is : List Item) → length is ≤ length (body is)
length-body [] = omega arith
length-body (i ∷ []) = omega (arith, length-item_text i [])
length-body (i ∷ j ∷ js) =
    let b = body (j ∷ js) in
    omega (
      arith,
      length-body (j ∷ js),
      length-le-append (blanks j.lead) b,
      length-item_text i (b',' ∷ (blanks j.lead ++ b)),
    )

length-print : (is : List Item) → length is ≤ length (print is)
unfolding print
length-print [] = omega arith
length-print (i ∷ is) =
    omega (arith, length-body (i ∷ is), length-le-append (blanks i.lead) (body (i ∷ is)))

-- A printed specification with an item in it is not empty.
print-cons : (i : Item) (is : List Item) → (c : ℕ) × (s : Bytes) × (print (i ∷ is) ≡ c ∷ s)
print-cons i is = nonempty (print (i ∷ is)) (length-print (i ∷ is))
  where
    nonempty : (t : Bytes) → suc (length is) ≤ length t → (c : ℕ) × (s : Bytes) × (t ≡ c ∷ s)
    nonempty [] h = absurd (omega arith)
    nonempty (c ∷ s) h = (c, s, refl)

skip_separators-print : (is : List Item) → skip_separators (print is) ≡ body is
unfolding print skip_separators
skip_separators-print [] = refl
skip_separators-print (i ∷ is) =
    skip_separators-blanks i.lead (body (i ∷ is))
    ∙ skip_separators-decimal i.low (upper_text i.upper (blanks i.trail ++ tail_text is (body is)))

item_end-rest : (r : Bytes) → IsRest r → item_end r ≡ some r
unfolding item_end
item_end-rest [] h = refl
item_end-rest (c ∷ s) h = rw h

valid_end-rest : (r : Bytes) → IsRest r → valid_end r ≡ some r
unfolding valid_end
valid_end-rest [] h = refl
valid_end-rest (c ∷ s) h = rw (h, skip_blanks-rest (44 ∷ s) refl) (item_end-rest (44 ∷ s) refl)

valid_port-pos : (m : ℕ) → m < 2 ^ 16 → valid_port (pos m) ≡ true
valid_port-pos m h = ground arith

-- Behind its first number, an item is valid up to the rest.
valid_end-item :
    (a : ℕ) (u : Option Upper) (n : ℕ) (r : Bytes)
    → high_of a u < 2 ^ 16
    → IsRest r
    → valid_end (skip_blanks (upper_text u (blanks n ++ r))) ≡ some r
unfolding valid_end valid_upper
valid_end-item a none n r hu h =
    rw (skip_blanks-blanks n r, skip_blanks-rest r h) (valid_end-rest r h)
valid_end-item a (some w) n r hu h =
    let text = decimal w.high ++ (blanks n ++ r) in
    let tail = b'-' ∷ (blanks w.after ++ text) in
    let e : skip_blanks tail ≡ tail = unfold skip_blanks in refl in
    rw
      (
        skip_blanks-blanks w.before tail,
        e,
        skip_blanks-blanks w.after text,
        skip_blanks-decimal w.high (blanks n ++ r),
        strtol-decimal w.high (blanks n ++ r) (omega arith)
            (starts_digit-blanks n r (starts_digit-rest r h)),
      )
      (rw (valid_port-pos w.high hu)
        (rw (skip_blanks-blanks n r, skip_blanks-rest r h) (item_end-rest r h)))

validate_item-item :
    (i : Item) (r : Bytes) (c : ℕ) (t : Bytes)
    → i.low < 2 ^ 16
    → high_of i.low i.upper < 2 ^ 16
    → IsRest r
    → item_text i r ≡ c ∷ t
    → validate_item c t ≡ some r
unfolding validate_item
validate_item-item i r c t hl hu h e =
    let found : strtol (c ∷ t) ≡ some (pos i.low, upper_text i.upper (blanks i.trail ++ r)) =
      rw (← e) (
        strtol-decimal i.low (upper_text i.upper (blanks i.trail ++ r)) (omega arith)
          (starts_digit-upper i.upper i.trail r h)) in
    rw (found, validate_item)
      (rw (valid_port-pos i.low hl) (valid_end-item i.low i.upper i.trail r hu h))

abbrev some_item : Bool → List Item → Bool
some_item saw [] = saw
some_item saw (_ ∷ _) = true

validate_loop-body :
    (f : ℕ) (saw : Bool) (is : List Item) (s : Bytes)
    → length is < f
    → IsPorts is
    → skip_separators s ≡ body is
    → some_item saw is ≡ true
    → validate_loop f saw s ≡ ok
unfolding validate_loop
validate_loop-body zero saw is s hf hp e hs = absurd (omega arith)
validate_loop-body (suc f) saw [] s hf hp e hs = rw (e, validate_loop) (rw hs)
validate_loop-body (suc f) saw (i ∷ is) s hf ((hl, hu), hp) e hs =
    let r = tail_text is (body is) in
    let (d, t, hd, e') = decimal-head i.low (upper_text i.upper (blanks i.trail ++ r)) in
    let round = validate_item-item i r (48 + d) t hl hu (tail_text-IsRest is (body is)) e' in
    rw (e ∙ e', validate_loop)
      (rw (round, validate_loop)
        (validate_loop-body f true is r (omega arith) hp (skip_separators-left_over none 0 is)
          (seen is)))
  where
    seen : (is : List Item) → some_item true is ≡ true
    seen [] = refl
    seen (_ ∷ _) = refl

-- The printed text of a nonempty list of port items, each within 0 to 65535, passes the
-- validation of port specifications.
pub port_spec_validate-print :
    (i : Item) (is : List Item) → IsPorts (i ∷ is) → port_spec_validate (print (i ∷ is)) ≡ ok
unfolding port_spec_validate
port_spec_validate-print i is h =
    let (c, s, e) = print-cons i is in
    let enough : length (i ∷ is) ≤ length (c ∷ s) = rw e at (length-print (i ∷ is)) in
    rw e (
      validate_loop-body (length (c ∷ s) + 1) false (i ∷ is) (c ∷ s) (omega arith) h
        (rw e at (skip_separators-print (i ∷ is))) refl)

-- The printed text of a nonempty list of port items, each within 0 to 65535, with any blanks
-- around commas and dashes and the ends of a range in either order, matches a port exactly if one
-- of the items covers it.
pub port_spec_match-print :
    (i : Item) (is : List Item) (port : ℕ)
    → IsPorts (i ∷ is)
    → port_spec_match (print (i ∷ is)) port ≡ covers (i ∷ is) port
unfolding port_spec_match
port_spec_match-print i is port h =
    let (c, s, e) = print-cons i is in
    let enough : length (i ∷ is) ≤ length (c ∷ s) = rw e at (length-print (i ∷ is)) in
    rw e (
      match_loop-body (length (c ∷ s) + 1) (i ∷ is) port (c ∷ s) (omega arith) h
        (rw e at (skip_separators-print (i ∷ is))))
