-- ===== src/Handshake/Http.antt =====
-- src/core/pmx_http_connect.c: the CONNECT request, and the reading of the reply.
use proxi_might.Prelude.{
  ℕ, ◌+◌, ◌-◌, ◌*◌, ◌/◌, ◌&&◌, not, Option, none, some, [], ◌∷◌, ◌++◌, ltb, leb, ◌==◌,
  if◌then◌else◌, length, take, ◌⊎◌, inl, inr,
}
use proxi_might.Prelude.Bytes.{Bytes, codes, isdigit}
use proxi_might.Prelude.Decimal.{decimal}
use proxi_might.Status.{Status, ok, err_invalid_arg, err_parse, err_proxy_auth, err_proxy_refused}
use proxi_might.Vpn.Text.{starts_with}
use proxi_might.Handshake.Base64.{base64_encode}

abbrev pub crlf : Bytes
crlf = 13 ∷ 10 ∷ []

-- char creds[PMX_MAX_USER + PMX_MAX_PASS + 2]
abbrev pub creds_size : ℕ
creds_size = 386

-- The header's text, cut to `char auth_header[512]`.
abbrev basic_header : Bytes ⊎ Status → Bytes ⊎ Status
basic_header (inr s) = inr s
basic_header (inl b64) = inl (take 511 (codes "Proxy-Authorization: Basic " ++ b64 ++ crlf))

abbrev auth_of : Bytes → Bytes ⊎ Status
auth_of creds =
    if leb creds_size (length creds)
    then inr err_invalid_arg
    else basic_header (base64_encode creds (((creds_size + 2) / 3) * 4 + 4))

-- The header for a user, empty for none; a NULL user and a NULL password are empty texts.
unfoldable pub auth_header : Bytes → Bytes → Bytes ⊎ Status
unfolding base64_encode
auth_header [] pass = inl []
auth_header (c ∷ user) pass = auth_of ((c ∷ user) ++ b':' ∷ pass)

abbrev authority : Bytes → ℕ → Bytes
authority host port = host ++ b':' ∷ decimal port

abbrev request_with : ℕ → Bytes → ℕ → Bytes ⊎ Status → Bytes ⊎ Status
request_with cap host port (inr s) = inr s
request_with cap host port (inl auth) =
    let text =
      codes "CONNECT "
      ++ authority host port
      ++ codes " HTTP/1.1"
      ++ crlf
      ++ codes "Host: "
      ++ authority host port
      ++ crlf
      ++ codes "Proxy-Connection: keep-alive"
      ++ crlf
      ++ auth
      ++ crlf in
    if leb cap (length text) then inr err_invalid_arg else inl text

-- pmx_http_build_connect, into a buffer of `cap` bytes
unfoldable pub http_connect : ℕ → Bytes → ℕ → Bytes → Bytes → Bytes ⊎ Status
unfolding auth_header decimal
http_connect cap host port user pass = request_with cap host port (auth_header user pass)

-- The text from the first space on.
unfoldable pub from_space : Bytes → Bytes
from_space [] = []
from_space (c ∷ s) = let rest = from_space s in if c == b' ' then c ∷ s else rest

unfoldable pub code_status : ℕ → Status
code_status code =
    if leb 200 code && ltb code 300
    then ok
    else if code == 407
    then err_proxy_auth
    else err_proxy_refused

-- The three digits behind the space, which is the first byte.
unfoldable pub status_code : Bytes → Option ℕ
unfolding isdigit
status_code (space ∷ a ∷ b ∷ c ∷ _) =
    if isdigit a && isdigit b && isdigit c
    then some (((a - 48) * 10 + (b - 48)) * 10 + (c - 48))
    else none
status_code _ = none

abbrev pub code_result : Option ℕ → Status
code_result none = err_parse
code_result (some code) = code_status code

-- pmx_http_parse_connect_reply
unfoldable pub http_parse_reply : Bytes → Status
unfolding code_status status_code from_space starts_with
http_parse_reply bytes =
    if ltb (length bytes) 12
    then err_parse
    else if not (starts_with (codes "HTTP/") bytes)
    then err_parse
    else code_result (status_code (from_space bytes))
