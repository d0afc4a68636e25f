-- ===== src/Handshake/Tests.antt =====
-- src/core/pmx_proxy.c: runs of the handshakes against servers given byte by byte.
use proxi_might.Prelude.{
  ℕ, ◌≡◌, refl, ◌+◌, ◌*◌, ◌/◌, none, some, List, [], ◌∷◌, ◌++◌, length, replicate, arith, inl, inr,
  ◌⊎◌,
}
use proxi_might.Prelude.Bytes.{Bytes, codes}
use proxi_might.Status.{Status}
use proxi_might.Proxy.{Proxy, init, http}
use proxi_might.Handshake.Ipv4.{parse_ipv4}
use proxi_might.Handshake.Socks.{socks5_connect}
use proxi_might.Handshake.Socks.Requests.{
  read_request, literal, name, IsWritten, destination_text, address_of, socks5_connect-read_request,
}
use proxi_might.Handshake.Base64.{base64_encode}
use proxi_might.Handshake.Base64.RoundTrip.{decode, base64_encode-decode}
use proxi_might.Handshake.Http.{auth_header}
use proxi_might.Handshake.Socket.{Socket, Arrival, chunk, recv_exact}
use proxi_might.Handshake.Run.{handshake}
use proxi_might.Handshake.Stream.{bytes_of}
use proxi_might.Handshake.Fragments.{recv_exact-fragments}

-- A server whose replies come in three pieces, with the tunnel's first byte behind them.
abbrev granting : Socket
granting = record {
  sent = [];
  room = 2 ∷ 100 ∷ 100 ∷ [];
  arriving =
      chunk (5 ∷ 0 ∷ [])
      ∷ chunk (5 ∷ 0 ∷ 0 ∷ 1 ∷ 127 ∷ 0 ∷ [])
      ∷ chunk (0 ∷ 1 ∷ 0 ∷ 80 ∷ 71 ∷ [])
      ∷ [];
}

abbrev target : Bytes
target = codes "example.com"

tunnel_stays : bytes_of (handshake init target 443 granting).1.arriving ≡ 71 ∷ []
unfolding handshake bytes_of init
tunnel_stays = refl

recv_exact-fragments_example :
    (evs : List Arrival) × (recv_exact 3 granting
      ≡ (inl (5 ∷ 0 ∷ 5 ∷ []), record granting { arriving = evs }))
    × (bytes_of evs ≡ 0 ∷ 0 ∷ 1 ∷ 127 ∷ 0 ∷ 0 ∷ 1 ∷ 0 ∷ 80 ∷ 71 ∷ [])
unfolding bytes_of
recv_exact-fragments_example =
    recv_exact-fragments 3 granting (5 ∷ 0 ∷ 5 ∷ [])
      (0 ∷ 0 ∷ 1 ∷ 127 ∷ 0 ∷ 0 ∷ 1 ∷ 0 ∷ 80 ∷ 71 ∷ []) refl refl

base64_encode-decode_example :
    (out : Bytes) × (base64_encode (codes "user:pass") 64 ≡ inl out)
    × (decode out ≡ codes "user:pass")
    × (length out ≡ ((length (codes "user:pass") + 2) / 3) * 4)
base64_encode-decode_example =
    base64_encode-decode (codes "user:pass") 64 (ground arith) (omega arith)

socks5_connect-read_request_example :
    (bytes : Bytes) × (socks5_connect 512 (destination_text (literal 192 0 2 17)) 443 ≡ inl bytes)
    × (read_request bytes ≡ some (address_of (literal 192 0 2 17), 443))
socks5_connect-read_request_example =
    socks5_connect-read_request 512 (literal 192 0 2 17) 443 (omega arith) (omega arith)
      (omega arith)

name-IsWritten : IsWritten (name (codes "example.org"))
name-IsWritten = (omega arith, refl)

reads_literal : parse_ipv4 (codes "192.0.2.17") ≡ some (192 ∷ 0 ∷ 2 ∷ 17 ∷ [])
unfolding parse_ipv4
reads_literal = refl

rejects_rest : parse_ipv4 (codes "192.0.2.17x") ≡ none
unfolding parse_ipv4
rejects_rest = refl

-- An HTTP proxy whose header comes in two pieces.
abbrev http_server : Socket
http_server = record {
  sent = [];
  room = 1000 ∷ [];
  arriving = chunk (codes "HTTP/1.1 200") ∷ chunk (codes " OK" ++ 13 ∷ 10 ∷ 13 ∷ 10 ∷ []) ∷ [];
}

abbrev http_proxy : Proxy
http_proxy = record init { type = http }

header_stays :
    bytes_of (handshake http_proxy target 443 http_server).1.arriving
    ≡ codes " OK" ++ 13 ∷ 10 ∷ 13 ∷ 10 ∷ []
unfolding handshake bytes_of init
header_stays = refl

header_succeeds : (handshake http_proxy target 443 http_server).0 ≡ inl tt
unfolding handshake init
header_succeeds = refl

-- The size of a header's text, 0 for an error.
size_of : Bytes ⊎ Status → ℕ
size_of (inl text) = length text
size_of (inr e) = 0

-- A login of 361 bytes needs a header of 513.
long_header : size_of (auth_header (replicate 100 b'u') (replicate 260 b'p')) ≡ 511
unfolding auth_header size_of
long_header = refl
