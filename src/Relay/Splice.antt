-- ===== src/Relay/Splice.antt =====
-- src/core/pmx_relay.c: the loop of relay_conn_worker that moves bytes both ways, and the end of a
-- connection.
use proxi_might.Prelude.{
  ℕ, ◌+◌, Bool, true, false, List, [], ◌∷◌, if◌then◌else◌, ◌⊎◌, inl, inr, set, get_elem?, none,
  some,
}
use proxi_might.Prelude.Bytes.{Bytes}
use proxi_might.Status.{Status}
use proxi_might.Handshake.Socket.{Socket, send_all, recv_some}
use proxi_might.Relay.{Relay, count_failed}

-- What one call of pmx_wait_two tells; `idle` comes with what relay_running then answers.
pub data Wake : Type 0 where
  wait_failed : Wake
  idle : Bool → Wake
  ready : Bool → Bool → Wake

abbrev pub buffer_size : ℕ
buffer_size = 8192

abbrev pub was_sent : Socket → (Unit {0} ⊎ Status) × Socket → Bool × Socket × Socket
was_sent from (inl u, to) = (true, from, to)
was_sent from (inr e, to) = (false, from, to)

abbrev pub was_read : (Bytes ⊎ Status) × Socket → Socket → Bool × Socket × Socket
was_read (inr e, from) to = (false, from, to)
was_read (inl got, from) to = was_sent from (send_all got to)

-- One read and the write of what was read; false where the loop breaks.
unfoldable pub forward : Socket → Socket → Bool × Socket × Socket
unfolding send_all recv_some
forward from to = was_read (recv_some buffer_size from) to

-- The direction back, where the one before it did not break.
abbrev pub forward_back : Bool → Bool × Socket × Socket → Bool × Socket × Socket
forward_back up_ready (false, client, up) = (false, client, up)
forward_back false (true, client, up) = (true, client, up)
forward_back true (true, client, up) =
    let (on, up', client') = forward up client in (on, client', up')

-- One round on sockets that are ready.
unfoldable pub round : Bool → Bool → Socket → Socket → Bool × Socket × Socket
unfolding forward
round client_ready up_ready client up =
    forward_back up_ready (if client_ready then forward client up else (true, client, up))

-- The loop, over what the waits tell.
unfoldable pub splice : List Wake → Socket → Socket → Socket × Socket
unfolding round
splice [] client up = (client, up)
splice (wait_failed ∷ ws) client up = (client, up)
splice (idle running ∷ ws) client up =
    let rest = splice ws client up in if running then rest else (client, up)
splice (ready c u ∷ ws) client up =
    let (on, client', up') = round c u client up in
    let rest = splice ws client' up' in if on then rest else (client', up')

-- The connection at `i` marked for relay_reap.
unfoldable pub mark_done : Relay → ℕ → Relay
mark_done r i = elim (get_elem? r.conns i) [
  | none ↦ r
  | some c ↦ record r { conns = set r.conns i (record c { done = true }) }
]

-- A chain that could not be opened.
unfoldable pub conn_failed : Relay → ℕ → Relay
unfolding mark_done
conn_failed r i = mark_done (count_failed r) i

-- A chain that was opened.
unfoldable pub conn_opened : Relay → Relay
conn_opened r = record r { stat_ok = r.stat_ok + 1 }
