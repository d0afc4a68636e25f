-- ===== src/Handshake/Socks/Requests.antt =====
-- src/core/pmx_socks.c: the CONNECT request of SOCKS5 as a server reads it.
use proxi_might.Prelude.{
  any, true, ℕ, ◌+◌, ◌*◌, ◌/◌, ◌%◌, ◌<◌, ◌≤◌, ◌≡◌, refl, ap, sym, ◌∙◌, false, ◌&&◌, Option, none,
  some, List, [], ◌∷◌, ◌++◌, ltb, ◌==◌, if◌then◌else◌, length, take, drop, inl, arith,
  length-append,
}
use proxi_might.Prelude.Bytes.{Bytes}
use proxi_might.Handshake.Ipv4.Literals.{dotted, foreign, parse_ipv4-dotted, parse_ipv4-foreign}
use proxi_might.Handshake.Socks.{fitting, port_be, socks5_to, socks5_connect}

pub data Address : Type 0 where
  ipv4_address domain_name : Bytes → Address

read_port : Address → Bytes → Option (Address × ℕ)
read_port a (high ∷ low ∷ []) = some (a, high * 256 + low)
read_port a _ = none

read_domain : Bytes → Option (Address × ℕ)
unfolding read_port
read_domain [] = none
read_domain (n ∷ s) = read_port (domain_name (take n s)) (drop n s)

-- The address of the given kind, and the port behind it.
read_address : ℕ → Bytes → Option (Address × ℕ)
unfolding read_port read_domain
read_address kind s =
    if kind == 1
    then read_port (ipv4_address (take 4 s)) (drop 4 s)
    else if kind == 3
    then read_domain s
    else none

-- A server's reading of a request, after RFC 1928.
unfoldable pub read_request : Bytes → Option (Address × ℕ)
unfolding read_address
read_request (ver ∷ cmd ∷ rsv ∷ kind ∷ s) =
    if ver == 5 && cmd == 1 && rsv == 0 then read_address kind s else none
read_request _ = none

-- What a user writes as the destination's host.
pub data Destination : Type 0 where
  literal : ℕ → ℕ → ℕ → ℕ → Destination
  name : Bytes → Destination

abbrev pub destination_text : Destination → Bytes
destination_text (literal a b c d) = dotted a b c d
destination_text (name s) = s

-- The address that the server shall find.
abbrev pub address_of : Destination → Address
address_of (literal a b c d) = ipv4_address (a ∷ b ∷ c ∷ d ∷ [])
address_of (name s) = domain_name s

-- The four parts are octets; a name is short and has a byte that no literal has.
abbrev pub IsWritten : Destination → Type 0
IsWritten (literal a b c d) = (a < 256) × (b < 256) × (c < 256) × (d < 256)
IsWritten (name s) = (length s ≤ 255) × (any foreign s ≡ true)

take-append : {A : Type 0} (xs ys : List A) → take (length xs) (xs ++ ys) ≡ xs
take-append [] ys = refl
take-append (x ∷ xs) ys = ap (λ t. x ∷ t) (take-append xs ys)

drop-append : {A : Type 0} (xs ys : List A) → drop (length xs) (xs ++ ys) ≡ ys
drop-append [] ys = refl
drop-append (x ∷ xs) ys = drop-append xs ys

read_port-port_be :
    (a : Address) (port : ℕ) → port < 65536 → read_port a (port_be port) ≡ some (a, port)
unfolding read_port
read_port-port_be a port h =
    let e : ((port / 256) % 256) * 256 + port % 256 ≡ port = omega arith in ap (λ q. some (a, q)) e

fitting_le : (cap : ℕ) (bytes : Bytes) → length bytes ≤ cap → fitting cap bytes ≡ inl bytes
fitting_le cap bytes h = let e : ltb cap (length bytes) ≡ false = ground arith in rw e refl

read_port_at :
    (n : ℕ) (kind : Bytes → Address) (s : Bytes) (port : ℕ)
    → port < 65536
    → length s ≡ n
    → read_port (kind (take n (s ++ port_be port))) (drop n (s ++ port_be port))
      ≡ some (kind s, port)
read_port_at n kind s port hp e =
    ap (λ k. read_port (kind (take k (s ++ port_be port))) (drop k (s ++ port_be port))) (sym e)
    ∙ ap (λ t. read_port (kind t) (drop (length s) (s ++ port_be port)))
        (take-append s (port_be port))
    ∙ ap (read_port (kind s)) (drop-append s (port_be port))
    ∙ read_port-port_be (kind s) port hp

to_name :
    (cap : ℕ) (s : Bytes) (port : ℕ)
    → length s ≤ 255
    → 262 ≤ cap
    → port < 65536
    → (bytes : Bytes) × (socks5_to cap s port none ≡ inl bytes)
      × (read_request bytes ≡ some (domain_name s, port))
unfolding socks5_to read_request
to_name cap s port hl hc hp =
    let e : ltb 255 (length s) ≡ false = ground arith in
    let n : length (s ++ port_be port) ≡ length s + 2 = length-append s (port_be port) in
    (
      5 ∷ 1 ∷ 0 ∷ 3 ∷ length s ∷ s ++ port_be port,
      rw e (fitting_le cap _ (omega (arith, n))),
      read_port_at (length s) domain_name s port hp refl,
    )

to_literal :
    (cap : ℕ) (s ip4 : Bytes) (port : ℕ)
    → length ip4 ≡ 4
    → 262 ≤ cap
    → port < 65536
    → (bytes : Bytes) × (socks5_to cap s port (some ip4) ≡ inl bytes)
      × (read_request bytes ≡ some (ipv4_address ip4, port))
unfolding socks5_to read_request
to_literal cap s ip4 port hi hc hp =
    let n : length (ip4 ++ port_be port) ≡ length ip4 + 2 = length-append ip4 (port_be port) in
    (
      5 ∷ 1 ∷ 0 ∷ 1 ∷ ip4 ++ port_be port,
      fitting_le cap _ (omega (arith, n, hi)),
      read_port_at 4 ipv4_address ip4 port hp hi,
    )

-- For a destination that is either a dotted IPv4 address of four octets or a name of at most 255
-- bytes with a byte that is no digit, dot, sign or blank, a port below 65536 and a buffer of at
-- least 262 bytes, the SOCKS5 CONNECT request is built, and a server that reads it after RFC 1928
-- finds the port and those octets in their order or that name.
pub socks5_connect-read_request :
    (cap : ℕ) (host : Destination) (port : ℕ)
    → IsWritten host
    → 262 ≤ cap
    → port < 65536
    → (bytes : Bytes) × (socks5_connect cap (destination_text host) port ≡ inl bytes)
      × (read_request bytes ≡ some (address_of host, port))
unfolding socks5_connect
socks5_connect-read_request cap (literal a b c d) port (ha, hb, hc, hd) hcap hp =
    rw (parse_ipv4-dotted a b c d ha hb hc hd)
      (to_literal cap (dotted a b c d) (a ∷ b ∷ c ∷ d ∷ []) port refl hcap hp)
socks5_connect-read_request cap (name s) port (hl, ho) hcap hp =
    rw (parse_ipv4-foreign s ho) (to_name cap s port hl hcap hp)
