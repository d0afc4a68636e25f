-- ===== src/Handshake/Ipv4/Literals.antt =====
-- src/core/pmx_socks.c: parse_ipv4 on a dotted literal, and on a text that cannot be one.
use proxi_might.Prelude.{
  any, ◌*◌, ◌-◌, ℕ, ◌+◌, ◌<◌, ◌^◌, ◌≡◌, refl, ◌∙◌, Bool, true, false, ◌||◌, ◌&&◌, not, Option, none,
  some, [], ◌∷◌, ◌++◌, ◌==◌, leb, arith, inl, inr, Bool-cases, min,
}
use proxi_might.Prelude.Bytes.{Bytes, isspace, isdigit}
use proxi_might.Prelude.Decimal.{
  decimal, starts_digit, skip_spaces, read_digits, read_digits-decimal, decimal-head,
}
use proxi_might.Handshake.Ipv4.{
  unsigned_digits, unsigned_value, signed_digits, scan_unsigned, behind_dot, octets, ◌>>=◌,
  parse_ipv4,
}

-- The usual text of an address.
abbrev pub dotted : ℕ → ℕ → ℕ → ℕ → Bytes
dotted a b c d =
    decimal a ++ (b'.' ∷ (decimal b ++ (b'.' ∷ (decimal c ++ (b'.' ∷ (decimal d ++ []))))))

-- A byte that stands in no literal: not a digit, a dot, a sign or a blank.
abbrev pub foreign : ℕ → Bool
foreign c = not (
    (leb b'0' c && leb c b'9')
    || c == b'.'
    || c == b'+'
    || c == b'-'
    || c == 32
    || (leb 9 c && leb c 13))

starts_digit-dot : (s : Bytes) → starts_digit (b'.' ∷ s) ≡ false
unfolding starts_digit isdigit
starts_digit-dot s = refl

scan_unsigned-decimal :
    (n : ℕ) (s : Bytes)
    → n < 256
    → starts_digit s ≡ false
    → scan_unsigned (decimal n ++ s) ≡ some (n, s)
unfolding scan_unsigned
scan_unsigned-decimal n s hn hs =
    let (d, t, hd, e) = decimal-head n s in
    let sp : isspace (48 + d) ≡ false = unfold isspace in ground arith in
    let ne : ((48 + d) == b'-') ≡ false = ground arith in
    let ne' : ((48 + d) == b'+') ≡ false = ground arith in
    let dig : starts_digit ((48 + d) ∷ t) ≡ true = unfold starts_digit isdigit in ground arith in
    let m : min n (2 ^ 32 - 1) ≡ n = omega arith in
    let start : signed_digits (skip_spaces (decimal n ++ s))
        ≡ some (unsigned_value false (read_digits 0 (decimal n ++ s))) =
      rw e (unfold skip_spaces signed_digits in rw (sp, ne, ne', dig) refl) in
    start ∙ rw (read_digits-decimal n s hs) (rw m refl)

-- A literal is read as its four octets.
pub parse_ipv4-dotted :
    (a b c d : ℕ)
    → a < 256
    → b < 256
    → c < 256
    → d < 256
    → parse_ipv4 (dotted a b c d) ≡ some (a ∷ b ∷ c ∷ d ∷ [])
unfolding parse_ipv4
parse_ipv4-dotted a b c d ha hb hc hd =
    let t3 = decimal d ++ [] in
    let t2 = decimal c ++ (b'.' ∷ t3) in
    let t1 = decimal b ++ (b'.' ∷ t2) in
    rw
      (
        scan_unsigned-decimal a (b'.' ∷ t1) ha (starts_digit-dot t1),
        scan_unsigned-decimal b (b'.' ∷ t2) hb (starts_digit-dot t2),
        scan_unsigned-decimal c (b'.' ∷ t3) hc (starts_digit-dot t3),
        scan_unsigned-decimal d [] hd (unfold starts_digit in refl),
      )
      (ground arith)

-- What is read over holds no foreign byte.
any-skip_spaces : (s : Bytes) → any foreign s ≡ true → any foreign (skip_spaces s) ≡ true
unfolding skip_spaces isspace
any-skip_spaces [] h = h
any-skip_spaces (c ∷ s) h = ground (arith, any-skip_spaces s)

any-read_digits :
    (acc : ℕ) (s : Bytes) → any foreign s ≡ true → any foreign (read_digits acc s).1 ≡ true
unfolding read_digits isdigit
any-read_digits acc [] h = h
any-read_digits acc (c ∷ s) h = ground (arith, any-read_digits (acc * 10 + (c - 48)) s)

any-unsigned_digits :
    (negative : Bool) (s : Bytes) (n : ℕ) (r : Bytes)
    → unsigned_digits negative s ≡ some (n, r)
    → any foreign s ≡ true
    → any foreign r ≡ true
any-unsigned_digits true s n r e h = ground (arith, any-read_digits 0 s h)
any-unsigned_digits false s n r e h = ground (arith, any-read_digits 0 s h)

any-signed_digits :
    (s : Bytes) (n : ℕ) (r : Bytes)
    → signed_digits s ≡ some (n, r)
    → any foreign s ≡ true
    → any foreign r ≡ true
unfolding signed_digits
any-signed_digits [] n r e h = cc
any-signed_digits (c ∷ s) n r e h = elim (Bool-cases (c == b'-')) [
  | inl m ↦ any-unsigned_digits true s n r (rw m at e) (ground arith)
  | inr m ↦ elim (Bool-cases (c == b'+')) [
    | inl p ↦ any-unsigned_digits false s n r (rw (m, p) at e) (ground arith)
    | inr p ↦ any-unsigned_digits false (c ∷ s) n r (rw (m, p) at e) h
  ]
]

any-scan_unsigned :
    (s : Bytes) (n : ℕ) (r : Bytes)
    → scan_unsigned s ≡ some (n, r)
    → any foreign s ≡ true
    → any foreign r ≡ true
unfolding scan_unsigned
any-scan_unsigned s n r e h = any-signed_digits (skip_spaces s) n r e (any-skip_spaces s h)

any-behind_dot : (s r : Bytes) → behind_dot s ≡ some r → any foreign s ≡ true → any foreign r ≡ true
any-behind_dot [] r e h = cc
any-behind_dot (c ∷ s) r e h = ground arith

octets-foreign : (a b c d : ℕ) (s : Bytes) → any foreign s ≡ true → octets a b c d s ≡ none
octets-foreign a b c d [] h = cc
octets-foreign a b c d (x ∷ s) h = refl

bind-none :
    {A : Type 0} (o : Option A) (f : A → Option Bytes)
    → ((a : A) → o ≡ some a → f a ≡ none)
    → (o >>= f) ≡ none
bind-none none f h = refl
bind-none (some a) f h = h a refl

scan-none :
    (s : Bytes) (f : ℕ × Bytes → Option Bytes)
    → any foreign s ≡ true
    → ((n : ℕ) (r : Bytes) → any foreign r ≡ true → f (n, r) ≡ none)
    → (scan_unsigned s >>= f) ≡ none
scan-none s f h k = bind-none (scan_unsigned s) f (λ (n, r) e. k n r (any-scan_unsigned s n r e h))

dot-none :
    (s : Bytes) (f : Bytes → Option Bytes)
    → any foreign s ≡ true
    → ((r : Bytes) → any foreign r ≡ true → f r ≡ none)
    → (behind_dot s >>= f) ≡ none
dot-none s f h k = bind-none (behind_dot s) f (λ r e. k r (any-behind_dot s r e h))

-- A text with a foreign byte is no address.
pub parse_ipv4-foreign : (host : Bytes) → any foreign host ≡ true → parse_ipv4 host ≡ none
unfolding parse_ipv4
parse_ipv4-foreign host h = scan-none host _ h (λ a s1 h1. dot-none s1 _ h1 (λ t1 k1.
    scan-none t1 _ k1 (λ b s2 h2. dot-none s2 _ h2 (λ t2 k2. scan-none t2 _ k2 (λ c s3 h3.
      dot-none s3 _ h3 (λ t3 k3. scan-none t3 _ k3 (λ d s4 h4. octets-foreign a b c d s4 h4)))))))
