-- ===== src/Rule/Ports/Printed.antt =====
-- Port specifications as a user writes them: items separated by commas, with blanks about.
use proxi_might.Prelude.{
  ℕ, zero, suc, ◌+◌, ◌<◌, ◌^◌, ◌≡◌, refl, ◌∙◌, Bool, false, ◌||◌, ◌&&◌, Option, none, some, List,
  [], ◌∷◌, ◌++◌, ◌==◌, leb, if◌then◌else◌, length, replicate, arith, inl, inr, Bool-cases, All,
}
use proxi_might.Prelude.Bytes.{Bytes}
use proxi_might.Prelude.Decimal.{
  ℤ, pos, decimal, strtol, starts_digit, strtol-decimal, decimal-head,
}
use proxi_might.Rule.Ports.{
  upper_or, skip_blanks, skip_separators, range_end, within, match_item, match_loop,
}

-- The upper end of a range with the blanks on both sides of the dash.
pub record Upper : Type 0 where
  pub before : ℕ
  pub after : ℕ
  pub high : ℕ

-- An item with the blanks before and behind it.
pub record Item : Type 0 where
  pub lead : ℕ
  pub low : ℕ
  pub upper : Option Upper
  pub trail : ℕ

abbrev pub blanks : ℕ → Bytes
blanks n = replicate n 32

abbrev pub upper_text : Option Upper → Bytes → Bytes
upper_text none rest = rest
upper_text (some u) rest = blanks u.before ++ (b'-' ∷ (blanks u.after ++ (decimal u.high ++ rest)))

-- The item without its leading blanks, and `rest` behind it.
abbrev pub item_text : Item → Bytes → Bytes
item_text i rest = decimal i.low ++ upper_text i.upper (blanks i.trail ++ rest)

abbrev pub tail_text : List Item → Bytes → Bytes
tail_text [] b = []
tail_text (j ∷ js) b = b',' ∷ (blanks j.lead ++ b)

abbrev pub body : List Item → Bytes
body [] = []
body (i ∷ is) = item_text i (tail_text is (body is))

unfoldable pub print : List Item → Bytes
print [] = []
print (i ∷ is) = blanks i.lead ++ body (i ∷ is)

abbrev pub high_of : ℕ → Option Upper → ℕ
high_of low none = low
high_of low (some u) = u.high

-- Between the two ends, whichever of them is the larger.
abbrev pub between : ℕ → ℕ → ℕ → Bool
between a b port = (leb a port && leb port b) || (leb b port && leb port a)

-- The port is in one of the ranges.
abbrev pub covers : List Item → ℕ → Bool
covers [] port = false
covers (i ∷ is) port = between i.low (high_of i.low i.upper) port || covers is port

-- All numbers are ports.
abbrev pub IsPorts : List Item → Type 0
IsPorts = All (λ i. (i.low < 2 ^ 16) × (high_of i.low i.upper < 2 ^ 16))

abbrev pub IsRest : Bytes → Type 0
IsRest [] = Unit
IsRest (c ∷ _) = c ≡ 44

within-between : (a b port : ℕ) → within (pos a) (pos b) port ≡ between a b port
unfolding within
within-between a b port = ground arith

pub skip_blanks-blanks : (n : ℕ) (s : Bytes) → skip_blanks (blanks n ++ s) ≡ skip_blanks s
unfolding skip_blanks
skip_blanks-blanks zero s = refl
skip_blanks-blanks (suc n) s = skip_blanks-blanks n s

pub skip_separators-blanks :
    (n : ℕ) (s : Bytes) → skip_separators (blanks n ++ s) ≡ skip_separators s
unfolding skip_separators
skip_separators-blanks zero s = refl
skip_separators-blanks (suc n) s = skip_separators-blanks n s

pub skip_blanks-decimal : (n : ℕ) (s : Bytes) → skip_blanks (decimal n ++ s) ≡ decimal n ++ s
unfolding skip_blanks
skip_blanks-decimal n s =
    let (d, t, hd, e) = decimal-head n s in
    let ne : ((48 + d) == 32) ≡ false = ground arith in rw (e, ne)

pub skip_separators-decimal :
    (n : ℕ) (s : Bytes) → skip_separators (decimal n ++ s) ≡ decimal n ++ s
unfolding skip_separators
skip_separators-decimal n s =
    let (d, t, hd, e) = decimal-head n s in
    let ne : ((48 + d) == 32) ≡ false = ground arith in
    let ne' : ((48 + d) == b',') ≡ false = ground arith in rw (e, ne, ne')

pub skip_blanks-rest : (r : Bytes) → IsRest r → skip_blanks r ≡ r
unfolding skip_blanks
skip_blanks-rest [] h = refl
skip_blanks-rest (c ∷ s) h = rw h

pub starts_digit-rest : (r : Bytes) → IsRest r → starts_digit r ≡ false
unfolding starts_digit
starts_digit-rest [] h = refl
starts_digit-rest (c ∷ s) h = rw h

pub starts_digit-blanks :
    (n : ℕ) (s : Bytes) → starts_digit s ≡ false → starts_digit (blanks n ++ s) ≡ false
unfolding starts_digit
starts_digit-blanks zero s h = h
starts_digit-blanks (suc n) s h = refl

range_end-rest : (a : ℤ) (r : Bytes) → IsRest r → range_end a r ≡ (a, r)
unfolding range_end
range_end-rest a [] h = refl
range_end-rest a (c ∷ s) h = rw h

pub tail_text-IsRest : (is : List Item) (b : Bytes) → IsRest (tail_text is b)
tail_text-IsRest [] b = tt
tail_text-IsRest (j ∷ js) b = refl

range_end-dash :
    (a : ℤ) (n m : ℕ) (s : Bytes)
    → m < 2 ^ 16
    → starts_digit s ≡ false
    → range_end a (b'-' ∷ (blanks n ++ (decimal m ++ s))) ≡ (pos m, s)
unfolding range_end upper_or
range_end-dash a n m s hm hs = rw (
  skip_blanks-blanks n (decimal m ++ s),
  skip_blanks-decimal m s,
  strtol-decimal m s (omega arith) hs,
)

-- What an item leaves behind it for the next round.
abbrev pub left_over : Option Upper → ℕ → Bytes → Bytes
left_over none n r = r
left_over (some _) n r = blanks n ++ r

pub starts_digit-upper :
    (u : Option Upper) (n : ℕ) (r : Bytes)
    → IsRest r
    → starts_digit (upper_text u (blanks n ++ r)) ≡ false
starts_digit-upper none n r h = starts_digit-blanks n r (starts_digit-rest r h)
starts_digit-upper (some u) n r h =
    starts_digit-blanks u.before (b'-' ∷ (blanks u.after ++ (decimal u.high ++ (blanks n ++ r))))
      (unfold starts_digit in refl)

range_end-item :
    (a : ℕ) (u : Option Upper) (n : ℕ) (r : Bytes)
    → high_of a u < 2 ^ 16
    → IsRest r
    → range_end (pos a) (skip_blanks (upper_text u (blanks n ++ r)))
      ≡ (pos (high_of a u), left_over u n r)
range_end-item a none n r hu h =
    rw (skip_blanks-blanks n r, skip_blanks-rest r h) (range_end-rest (pos a) r h)
range_end-item a (some w) n r hu h =
    let tail = b'-' ∷ (blanks w.after ++ (decimal w.high ++ (blanks n ++ r))) in
    let e : skip_blanks tail ≡ tail = unfold skip_blanks in refl in
    rw (skip_blanks-blanks w.before tail, e)
      (range_end-dash (pos a) w.after w.high (blanks n ++ r) hu
        (starts_digit-blanks n r (starts_digit-rest r h)))

-- One round on a printed item.
match_item-item :
    (i : Item) (r : Bytes) (port c : ℕ) (t : Bytes)
    → i.low < 2 ^ 16
    → high_of i.low i.upper < 2 ^ 16
    → IsRest r
    → item_text i r ≡ c ∷ t
    → match_item port c t ≡ (
        if between i.low (high_of i.low i.upper) port
        then none
        else some (left_over i.upper i.trail r))
unfolding match_item
match_item-item i r port c t hl hu h e =
    let found : strtol (c ∷ t) ≡ some (pos i.low, upper_text i.upper (blanks i.trail ++ r)) =
      rw (← e) (
        strtol-decimal i.low (upper_text i.upper (blanks i.trail ++ r)) (omega arith)
          (starts_digit-upper i.upper i.trail r h)) in
    rw (found, match_item)
      (rw (range_end-item i.low i.upper i.trail r hu h)
        (rw (within-between i.low (high_of i.low i.upper) port)))

skip_separators-tail_text : (is : List Item) → skip_separators (tail_text is (body is)) ≡ body is
unfolding skip_separators
skip_separators-tail_text [] = refl
skip_separators-tail_text (j ∷ js) =
    skip_separators-blanks j.lead (body (j ∷ js))
    ∙ skip_separators-decimal j.low (upper_text j.upper (blanks j.trail ++ tail_text js (body js)))

pub skip_separators-left_over :
    (u : Option Upper) (n : ℕ) (is : List Item)
    → skip_separators (left_over u n (tail_text is (body is))) ≡ body is
skip_separators-left_over none n is = skip_separators-tail_text is
skip_separators-left_over (some w) n is =
    skip_separators-blanks n (tail_text is (body is)) ∙ skip_separators-tail_text is

-- Rounds of the matcher over printed items.
pub match_loop-body :
    (f : ℕ) (is : List Item) (port : ℕ) (s : Bytes)
    → length is < f
    → IsPorts is
    → skip_separators s ≡ body is
    → match_loop f port s ≡ covers is port
unfolding match_loop
match_loop-body zero is port s hf hp e = absurd (omega arith)
match_loop-body (suc f) [] port s hf hp e = rw (e, match_loop)
match_loop-body (suc f) (i ∷ is) port s hf ((hl, hu), hp) e =
    let r = tail_text is (body is) in
    let (d, t, hd, e') = decimal-head i.low (upper_text i.upper (blanks i.trail ++ r)) in
    let round = match_item-item i r port (48 + d) t hl hu (tail_text-IsRest is (body is)) e' in
    elim (Bool-cases (between i.low (high_of i.low i.upper) port)) [
      | inl hit ↦ rw (e ∙ e', match_loop) (rw (round, match_loop) (rw hit))
      | inr miss ↦
          rw (e ∙ e', match_loop)
            (rw (round, match_loop)
              (rw miss (
                match_loop-body f is port (left_over i.upper i.trail r) (omega arith) hp
                  (skip_separators-left_over i.upper i.trail is))))
    ]
