-- ===== src/Handshake/Base64.antt =====
-- src/core/pmx_http_connect.c: pmx_base64_encode.
pub mod RoundTrip
use proxi_might.Prelude.{
  ◌-◌, ◌^◌, ℕ, ◌+◌, ◌*◌, ◌/◌, ◌%◌, Option, none, some, List, [], ◌∷◌, ltb, if◌then◌else◌, length,
  ◌⊎◌, inl, inr,
}
use proxi_might.Prelude.Bytes.{Bytes}
use proxi_might.Status.{Status, err_invalid_arg}

-- B64[n]: the characters by their ranges
unfoldable pub digit_char : ℕ → ℕ
digit_char n =
    if ltb n 26
    then b'A' + n
    else if ltb n 52
    then b'a' + n - 26
    else if ltb n 62
    then b'0' + n - 52
    else if ltb n 63
    then b'+'
    else b'/'

-- The four characters of 24 bits.
abbrev pub char_at : ℕ → ℕ → ℕ
char_at n shift = digit_char ((n / 2 ^ shift) % 64)

-- The loop over groups of three bytes, and the two cases of its rest.
unfoldable pub encode_groups : Bytes → Bytes
unfolding digit_char
encode_groups [] = []
encode_groups (a ∷ []) = let n = a * 65536 in char_at n 18 ∷ char_at n 12 ∷ b'=' ∷ b'=' ∷ []
encode_groups (a ∷ b ∷ []) =
    let n = a * 65536 + b * 256 in char_at n 18 ∷ char_at n 12 ∷ char_at n 6 ∷ b'=' ∷ []
encode_groups (a ∷ b ∷ c ∷ s) =
    let n = a * 65536 + b * 256 + c in
    char_at n 18 ∷ char_at n 12 ∷ char_at n 6 ∷ char_at n 0 ∷ encode_groups s

-- pmx_base64_encode, into a buffer of `out_cap` bytes
unfoldable pub base64_encode : Bytes → ℕ → Bytes ⊎ Status
unfolding encode_groups
base64_encode bytes out_cap =
    let need = ((length bytes + 2) / 3) * 4 in
    if ltb out_cap (need + 1) then inr err_invalid_arg else inl (encode_groups bytes)
