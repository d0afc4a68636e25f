-- ===== src/Handshake/Base64/RoundTrip.antt =====
-- src/core/pmx_http_connect.c: pmx_base64_encode against a decoder.
use proxi_might.Prelude.{
  ℕ, ◌+◌, ◌-◌, ◌*◌, ◌/◌, ◌%◌, ◌<◌, ◌≡◌, refl, ap, ◌∙◌, false, [], ◌∷◌, ltb, leb, ◌==◌,
  if◌then◌else◌, take, length, inl, All, arith,
}
use proxi_might.Prelude.Bytes.{Bytes}
use proxi_might.Handshake.Base64.{digit_char, encode_groups, base64_encode}

-- The six bits that a character stands for.
char_value : ℕ → ℕ
char_value c =
    if c == b'+'
    then 62
    else if c == b'/'
    then 63
    else if leb c b'9'
    then c - b'0' + 52
    else if leb c b'Z'
    then c - b'A'
    else c - b'a' + 26

joined_bits : ℕ → ℕ → ℕ → ℕ → ℕ
joined_bits a b c d = ((a * 64 + b) * 64 + c) * 64 + d

-- The bytes of one group of characters, in front of those of the later groups.
group_bytes : ℕ → ℕ → ℕ → ℕ → Bytes → Bytes
unfolding joined_bits char_value
group_bytes a b c d rest =
    if c == b'='
    then joined_bits (char_value a) (char_value b) 0 0 / 65536 ∷ []
    else if d == b'='
    then (let n = joined_bits (char_value a) (char_value b) (char_value c) 0 in
        n / 65536 ∷ (n / 256) % 256 ∷ [])
    else (let n = joined_bits (char_value a) (char_value b) (char_value c) (char_value d) in
        n / 65536 ∷ (n / 256) % 256 ∷ n % 256 ∷ rest)

-- A decoder after RFC 4648, for a text of whole groups.
unfoldable pub decode : Bytes → Bytes
unfolding group_bytes
decode (a ∷ b ∷ c ∷ d ∷ s) = group_bytes a b c d (decode s)
decode _ = []

char_value-digit_char : (n : ℕ) → n < 64 → char_value (digit_char n) ≡ n
unfolding char_value digit_char
char_value-digit_char n h = ground arith

digit_char_ne : (n : ℕ) → n < 64 → (digit_char n == b'=') ≡ false
unfolding digit_char
digit_char_ne n h = ground arith

-- The bytes of a number of 24 bits, in front of others.
abbrev three : ℕ → Bytes → Bytes
three n rest = n / 65536 ∷ (n / 256) % 256 ∷ n % 256 ∷ rest

group_three :
    (v1 v2 v3 v4 : ℕ) (rest : Bytes)
    → v1 < 64
    → v2 < 64
    → v3 < 64
    → v4 < 64
    → group_bytes (digit_char v1) (digit_char v2) (digit_char v3) (digit_char v4) rest
      ≡ three (joined_bits v1 v2 v3 v4) rest
unfolding group_bytes
group_three v1 v2 v3 v4 rest h1 h2 h3 h4 =
    rw
      (
        digit_char_ne v3 h3,
        digit_char_ne v4 h4,
        char_value-digit_char v1 h1,
        char_value-digit_char v2 h2,
        char_value-digit_char v3 h3,
        char_value-digit_char v4 h4,
      )
      refl

group_two :
    (v1 v2 v3 : ℕ) (rest : Bytes)
    → v1 < 64
    → v2 < 64
    → v3 < 64
    → group_bytes (digit_char v1) (digit_char v2) (digit_char v3) b'=' rest
      ≡ take 2 (three (joined_bits v1 v2 v3 0) [])
unfolding group_bytes
group_two v1 v2 v3 rest h1 h2 h3 =
    rw
      (
        digit_char_ne v3 h3,
        char_value-digit_char v1 h1,
        char_value-digit_char v2 h2,
        char_value-digit_char v3 h3,
      )
      refl

group_one :
    (v1 v2 : ℕ) (rest : Bytes)
    → v1 < 64
    → v2 < 64
    → group_bytes (digit_char v1) (digit_char v2) b'=' b'=' rest
      ≡ take 1 (three (joined_bits v1 v2 0 0) [])
unfolding group_bytes
group_one v1 v2 rest h1 h2 = rw (char_value-digit_char v1 h1, char_value-digit_char v2 h2) refl

joined_bits-split :
    (n : ℕ)
    → n < 16777216
    → joined_bits ((n / 262144) % 64) ((n / 4096) % 64) ((n / 64) % 64) ((n / 1) % 64) ≡ n
unfolding joined_bits
joined_bits-split n h = omega arith

three-bytes :
    (a b c : ℕ) (rest : Bytes)
    → a < 256
    → b < 256
    → c < 256
    → three (a * 65536 + b * 256 + c) rest ≡ a ∷ b ∷ c ∷ rest
three-bytes a b c rest ha hb hc =
    let n = a * 65536 + b * 256 + c in
    let e1 : n / 65536 ≡ a = omega arith in
    let e2 : (n / 256) % 256 ≡ b = omega arith in
    let e3 : n % 256 ≡ c = omega arith in rw (e1, e2, e3) refl

bits_one :
    (a : ℕ)
    → a < 256
    → joined_bits ((a * 65536 / 262144) % 64) ((a * 65536 / 4096) % 64) 0 0
      ≡ a * 65536 + 0 * 256 + 0
unfolding joined_bits
bits_one a h = omega arith

bits_two :
    (a b : ℕ)
    → a < 256
    → b < 256
    → joined_bits
        (((a * 65536 + b * 256) / 262144) % 64)
        (((a * 65536 + b * 256) / 4096) % 64)
        (((a * 65536 + b * 256) / 64) % 64)
        0
      ≡ a * 65536 + b * 256 + 0
unfolding joined_bits
bits_two a b ha hb = omega arith

decode-encode_groups : (s : Bytes) → All (λ c. c < 256) s → decode (encode_groups s) ≡ s
unfolding decode encode_groups
decode-encode_groups [] h = refl
decode-encode_groups (a ∷ []) (ha, h) =
    let n = a * 65536 in
    let e : joined_bits ((n / 262144) % 64) ((n / 4096) % 64) 0 0 ≡ a * 65536 + 0 * 256 + 0 =
      bits_one a ha in
    group_one ((n / 262144) % 64) ((n / 4096) % 64) [] (omega arith) (omega arith)
    ∙ ap (λ m. take 1 (three m [])) e
    ∙ ap (take 1) (three-bytes a 0 0 [] ha (omega arith) (omega arith))
decode-encode_groups (a ∷ b ∷ []) (ha, (hb, h)) =
    let n = a * 65536 + b * 256 in
    let e : joined_bits ((n / 262144) % 64) ((n / 4096) % 64) ((n / 64) % 64) 0
        ≡ a * 65536 + b * 256 + 0 =
      bits_two a b ha hb in
    group_two ((n / 262144) % 64) ((n / 4096) % 64) ((n / 64) % 64) [] (omega arith) (omega arith)
      (omega arith)
    ∙ ap (λ m. take 2 (three m [])) e
    ∙ ap (take 2) (three-bytes a b 0 [] ha hb (omega arith))
decode-encode_groups (a ∷ b ∷ c ∷ s) (ha, (hb, (hc, h))) =
    let n = a * 65536 + b * 256 + c in
    group_three ((n / 262144) % 64) ((n / 4096) % 64) ((n / 64) % 64) ((n / 1) % 64)
      (decode (encode_groups s)) (omega arith) (omega arith) (omega arith) (omega arith)
    ∙ ap (λ m. three m (decode (encode_groups s))) (joined_bits-split n (omega arith))
    ∙ three-bytes a b c (decode (encode_groups s)) ha hb hc
    ∙ ap (λ t. a ∷ b ∷ c ∷ t) (decode-encode_groups s h)

length-encode_groups : (s : Bytes) → length (encode_groups s) ≡ ((length s + 2) / 3) * 4
unfolding encode_groups
length-encode_groups [] = refl
length-encode_groups (a ∷ []) = refl
length-encode_groups (a ∷ b ∷ []) = refl
length-encode_groups (a ∷ b ∷ c ∷ s) = omega (arith, length-encode_groups s)

-- For bytes below 256 and a buffer with room for the text and its NUL, base64 encoding succeeds
-- with four characters for every three bytes begun, and a decoder after RFC 4648 gives the bytes
-- back.
pub base64_encode-decode :
    (s : Bytes) (out_cap : ℕ)
    → All (λ c. c < 256) s
    → ((length s + 2) / 3) * 4 < out_cap
    → (out : Bytes) × (base64_encode s out_cap ≡ inl out)
      × (decode out ≡ s)
      × (length out ≡ ((length s + 2) / 3) * 4)
unfolding base64_encode
base64_encode-decode s out_cap hs hc =
    let e : ltb out_cap (((length s + 2) / 3) * 4 + 1) ≡ false = ground arith in
    (encode_groups s, rw e refl, decode-encode_groups s hs, length-encode_groups s)
