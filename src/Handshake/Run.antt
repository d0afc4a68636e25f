-- ===== src/Handshake/Run.antt =====
-- src/core/pmx_proxy.c: the handshakes with a proxy server over a connected socket.
use proxi_might.Prelude.{
  ℕ, zero, suc, ◌+◌, ◌-◌, Bool, true, false, not, [], ◌∷◌, ◌++◌, leb, ◌==◌, if◌then◌else◌, length,
  inl, inr,
}
use proxi_might.Prelude.Bytes.{Bytes}
use proxi_might.Status.{
  Status, is_ok, err_unsupported, err_proxy_auth, err_proxy_handshake, err_parse,
}
use proxi_might.Proxy.{Proxy, ProxyType, socks5, socks4, socks4a, http, https}
use proxi_might.Handshake.Socks.{
  socks5_greeting, socks5_userpass, socks5_connect, socks5_parse_method, socks5_parse_reply,
  socks4_connect, socks4_parse_reply,
}
use proxi_might.Handshake.Http.{http_connect, http_parse_reply}
use proxi_might.Handshake.Socket.{
  Net, pure, raise, given, ◌>>=◌, ◌>>◌, send_all, recv_exact, recv_some,
}

abbrev pub byte_at : Bytes → ℕ → ℕ
byte_at [] i = 0
byte_at (b ∷ s) zero = b
byte_at (b ∷ s) (suc i) = byte_at s i

-- Goes on where the status is PMX_OK.
abbrev pub checked : Status → Net Unit
checked st s = (if is_ok st then inl tt else inr st, s)

unfoldable pub send_userpass : Proxy → Net Unit
unfolding socks5_userpass send_all recv_exact
send_userpass p = do
  auth ← given (socks5_userpass 512 p.username p.password)
  send_all auth
  ar ← recv_exact 2
  if byte_at ar 1 == 0x00 then pure tt else raise err_proxy_auth

abbrev pub by_method : Proxy → ℕ → Net Unit
by_method p method =
    if method == 0x02
    then send_userpass p
    else if method == 0x00
    then pure tt
    else raise err_proxy_auth

-- The length of the bound address, by its kind.
abbrev pub address_length : ℕ → Net ℕ
address_length kind =
    if kind == 0x01
    then pure 4
    else if kind == 0x04
    then pure 16
    else if kind == 0x03
    then (recv_exact 1 >>= λ l. pure (byte_at l 0))
    else raise err_proxy_handshake

-- The CONNECT request and its reply, once the server let us in.
unfoldable pub socks5_open : Bytes → ℕ → Net Unit
unfolding socks5_connect socks5_parse_reply send_all recv_exact
socks5_open host port = do
  request ← given (socks5_connect 512 host port)
  send_all request
  head ← recv_exact 4
  checked (socks5_parse_reply head)
  addr_len ← address_length (byte_at head 3)
  _ ← recv_exact (addr_len + 2)
  pure tt

unfoldable pub socks5_handshake : Proxy → Bytes → ℕ → Net Unit
unfolding socks5_greeting socks5_parse_method send_userpass socks5_open send_all recv_exact
socks5_handshake p host port = do
  greeting ← given (socks5_greeting 512 p.use_auth)
  send_all greeting
  reply ← recv_exact 2
  checked (socks5_parse_method reply 0).1
  by_method p (socks5_parse_method reply 0).0
  socks5_open host port

abbrev pub is_socks4a : ProxyType → Bool
is_socks4a socks4a = true
is_socks4a _ = false

unfoldable pub socks4_handshake : Proxy → Bytes → ℕ → Net Unit
unfolding socks4_connect socks4_parse_reply send_all recv_exact
socks4_handshake p host port = do
  request ←
      given
        (socks4_connect 512 host port (is_socks4a p.type) (if p.use_auth then p.username else []))
  send_all request
  reply ← recv_exact 8
  checked (socks4_parse_reply reply)

abbrev pub is_parse : Status → Bool
is_parse err_parse = true
is_parse _ = false

-- The loop that reads the status line into `char resp[1024]`.
unfoldable pub http_rounds : ℕ → Bytes → Net Unit
unfolding http_parse_reply recv_some
http_rounds zero resp = raise err_proxy_handshake
http_rounds (suc attempts) resp = recv_some (1023 - length resp) >>= λ got.
    if not (is_parse (http_parse_reply (resp ++ got)))
    then checked (http_parse_reply (resp ++ got))
    else if leb 1023 (length (resp ++ got))
    then raise err_proxy_handshake
    else http_rounds attempts (resp ++ got)

unfoldable pub http_handshake : Proxy → Bytes → ℕ → Net Unit
unfolding http_connect http_rounds send_all
http_handshake p host port = do
  request ← given (
      http_connect 1024 host port (if p.use_auth then p.username else [])
        (if p.use_auth then p.password else []))
  send_all request
  http_rounds 8 []

unfoldable pub by_type : ProxyType → Proxy → Bytes → ℕ → Net Unit
unfolding socks5_handshake socks4_handshake http_handshake
by_type socks5 p host port = socks5_handshake p host port
by_type socks4 p host port = socks4_handshake p host port
by_type socks4a p host port = socks4_handshake p host port
by_type http p host port = http_handshake p host port
by_type https p host port = raise err_unsupported

-- pmx_proxy_handshake
unfoldable pub handshake : Proxy → Bytes → ℕ → Net Unit
unfolding by_type
handshake p host port = by_type p.type p host port
