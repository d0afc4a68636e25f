-- ===== src/Handshake/Socks.antt =====
-- src/core/pmx_socks.c: the requests of SOCKS4 and SOCKS5, and the replies. A request that is built
-- is `inl`, an error `inr`; `cap` is the size of the caller's buffer.
pub mod Requests
use proxi_might.Prelude.{
  ℕ, ◌+◌, ◌/◌, ◌%◌, Bool, true, false, ◌&&◌, ◌||◌, not, Option, none, some, List, [], ◌∷◌, ◌++◌,
  ltb, ◌==◌, if◌then◌else◌, length, ◌⊎◌, inl, inr,
}
use proxi_might.Prelude.Bytes.{Bytes}
use proxi_might.Status.{
  Status, ok, err_invalid_arg, err_parse, err_unsupported, err_permission, err_net,
  err_conn_refused, err_proxy_handshake, err_proxy_auth, err_proxy_refused,
}
use proxi_might.Handshake.Ipv4.{parse_ipv4}

-- put_port_be
abbrev pub port_be : ℕ → Bytes
port_be port = (port / 256) % 256 ∷ port % 256 ∷ []

abbrev pub fitting : ℕ → Bytes → Bytes ⊎ Status
fitting cap bytes = if ltb cap (length bytes) then inr err_invalid_arg else inl bytes

-- pmx_socks5_build_greeting
unfoldable pub socks5_greeting : ℕ → Bool → Bytes ⊎ Status
socks5_greeting cap true = fitting cap (0x05 ∷ 0x02 ∷ 0x00 ∷ 0x02 ∷ [])
socks5_greeting cap false = fitting cap (0x05 ∷ 0x01 ∷ 0x00 ∷ [])

-- pmx_socks5_build_userpass
unfoldable pub socks5_userpass : ℕ → Bytes → Bytes → Bytes ⊎ Status
socks5_userpass cap user pass =
    if ltb 255 (length user) || ltb 255 (length pass)
    then inr err_invalid_arg
    else fitting cap (0x01 ∷ length user ∷ user ++ length pass ∷ pass)

-- The address of a CONNECT request, from what `parse_ipv4` found.
unfoldable pub socks5_to : ℕ → Bytes → ℕ → Option Bytes → Bytes ⊎ Status
socks5_to cap host port (some ip4) = fitting cap (0x05 ∷ 0x01 ∷ 0x00 ∷ 0x01 ∷ ip4 ++ port_be port)
socks5_to cap host port none =
    if ltb 255 (length host)
    then inr err_invalid_arg
    else fitting cap (0x05 ∷ 0x01 ∷ 0x00 ∷ 0x03 ∷ length host ∷ host ++ port_be port)

-- pmx_socks5_build_connect
unfoldable pub socks5_connect : ℕ → Bytes → ℕ → Bytes ⊎ Status
unfolding parse_ipv4 socks5_to
socks5_connect cap host port = socks5_to cap host port (parse_ipv4 host)

-- pmx_socks5_parse_method: the method, which starts out as `method`, and the status
unfoldable pub socks5_parse_method : Bytes → ℕ → ℕ × Status
socks5_parse_method [] method = (method, err_parse)
socks5_parse_method (ver ∷ []) method = (method, err_parse)
socks5_parse_method (ver ∷ m ∷ _) method =
    if not (ver == 0x05)
    then (method, err_proxy_handshake)
    else (m, if m == 0xFF then err_proxy_auth else ok)

unfoldable pub reply_status : ℕ → Status
reply_status rep =
    if rep == 0x00
    then ok
    else if rep == 0x02
    then err_permission
    else if rep == 0x03
    then err_net
    else if rep == 0x04
    then err_net
    else if rep == 0x05
    then err_conn_refused
    else err_proxy_refused

-- pmx_socks5_parse_connect_reply; the reply code itself is the second byte
unfoldable pub socks5_parse_reply : Bytes → Status
unfolding reply_status
socks5_parse_reply [] = err_parse
socks5_parse_reply (ver ∷ []) = err_parse
socks5_parse_reply (ver ∷ rep ∷ _) = reply_status rep

-- The request from what `parse_ipv4` found.
unfoldable pub socks4_to : ℕ → Bytes → ℕ → Bool → Bytes → Option Bytes → Bytes ⊎ Status
socks4_to cap host port socks4a userid (some ip4) =
    fitting cap (0x04 ∷ 0x01 ∷ port_be port ++ ip4 ++ userid ++ 0x00 ∷ [])
socks4_to cap host port false userid none = inr err_unsupported
socks4_to cap host port true userid none =
    fitting cap
      (0x04 ∷ 0x01 ∷ port_be port ++ 0x00 ∷ 0x00 ∷ 0x00 ∷ 0x01 ∷ userid ++ 0x00 ∷ host ++ 0x00 ∷ [])

-- pmx_socks4_build_connect
unfoldable pub socks4_connect : ℕ → Bytes → ℕ → Bool → Bytes → Bytes ⊎ Status
unfolding parse_ipv4 socks4_to
socks4_connect cap host port socks4a userid =
    socks4_to cap host port socks4a userid (parse_ipv4 host)

unfoldable pub result_status : ℕ → Status
result_status code =
    if code == 0x5A
    then ok
    else if code == 0x5B
    then err_proxy_refused
    else if code == 0x5C
    then err_proxy_handshake
    else if code == 0x5D
    then err_proxy_auth
    else err_proxy_handshake

-- pmx_socks4_parse_reply
unfoldable pub socks4_parse_reply : Bytes → Status
unfolding result_status
socks4_parse_reply [] = err_parse
socks4_parse_reply (ver ∷ []) = err_parse
socks4_parse_reply (ver ∷ code ∷ s) = if ltb (length s) 6 then err_parse else result_status code
