-- ===== src/Relay/Tests.antt =====
-- src/core/pmx_relay.c: runs of the relay.
use proxi_might.Prelude.{◌≡◌, refl, true, false, some, List, [], ◌∷◌, arith}
use proxi_might.Prelude.Bytes.{Bytes, codes, strlcpy}
use proxi_might.Proxy.{Proxy, init}
use proxi_might.Handshake.Socket.{Socket, chunk}
use proxi_might.Handshake.Stream.{Moves}
use proxi_might.Relay.{Relay, register, relay_take}
use proxi_might.Relay.Pending.{entry_of, register-relay_take}
use proxi_might.Relay.Through.{through, IsChained, through-IsChained}
use proxi_might.Relay.Splice.{splice, ready, idle}

abbrev hops : List Proxy
hops = record init { host = codes "a.example" } ∷ record init { host = codes "b.example" } ∷ []

abbrev site : Bytes
site = codes "example.com"

-- Both hops grant, the second one in the tunnel of the first.
abbrev first_hop : Socket
first_hop = record {
  sent = [];
  room = 100 ∷ 100 ∷ 100 ∷ 100 ∷ [];
  arriving =
      chunk (5 ∷ 0 ∷ 5 ∷ 0 ∷ 0 ∷ 1 ∷ 127 ∷ 0 ∷ 0 ∷ 1 ∷ 0 ∷ 80 ∷ 5 ∷ [])
      ∷ chunk (0 ∷ [])
      ∷ chunk (5 ∷ 0 ∷ 0 ∷ 1 ∷ 127 ∷ 0 ∷ 0 ∷ 1 ∷ 0 ∷ 80 ∷ [])
      ∷ [];
}

through-IsChained_example :
    (out : Bytes) × (got : Bytes) × IsChained hops site 443 out got
    × Moves first_hop out got (through hops site 443 first_hop).1
unfolding through init
through-IsChained_example =
    through-IsChained hops site 443 first_hop (through hops site 443 first_hop).1 refl

abbrev empty_relay : Relay
empty_relay = record { running = true; pending = []; conns = []; stat_ok = 0; stat_failed = 0 }

register-relay_take_example :
    (relay_take (register empty_relay 50000 site 443 hops 100 101).0 50000 2000).1
    ≡ some (entry_of 50000 site 443 hops 101)
unfolding register strlcpy
register-relay_take_example =
    register-relay_take empty_relay (register empty_relay 50000 site 443 hops 100 101).0 50000 site
      443 hops 100 101 2000 refl (omega arith)

abbrev peer : Bytes → Socket
peer s = record { sent = []; room = 100 ∷ []; arriving = chunk s ∷ [] }

carries_both_ways :
    (splice
      (ready true false ∷ ready false true ∷ idle false ∷ [])
      (peer (codes "GET"))
      (peer (codes "OK"))).1.sent
    ≡ codes "GET"
unfolding splice
carries_both_ways = refl
