-- ===== src/Relay.antt =====
-- src/core/pmx_relay.c: the relay's table of pending destinations and its connections. Each function
-- is one step under the relay's mutex; the clock's readings are arguments.
use proxi_might.Prelude.{
  ℕ, ◌+◌, ◌-◌, ◌%◌, ◌^◌, ◌≤◌, Bool, true, false, ◌&&◌, ◌||◌, not, Option, none, some, List, [], ◌∷◌,
  ◌++◌, ltb, leb, ◌==◌, if◌then◌else◌, length,
}
use proxi_might.Prelude.Bytes.{Bytes, strlcpy}
use proxi_might.Status.{Status, ok, err_invalid_arg, err_state}
use proxi_might.Chain.{max_chain_hops}
use proxi_might.Proxy.{Proxy}
pub mod Pending
pub mod Through
pub mod Splice
pub mod Tests

abbrev pub max_conns : ℕ
max_conns = 64

abbrev pub max_pending : ℕ
max_pending = 64

abbrev pub entry_ttl_ms : ℕ
entry_ttl_ms = 30000

-- relay_entry; `chain` is the part of the array below `chain_len`
pub record RelayEntry : Type 0 where
  pub src_port : ℕ
  pub dst_host : Bytes
  pub dst_port : ℕ
  pub chain : List Proxy
  pub added_ms : ℕ

-- relay_conn, without its sockets and its thread
pub record RelayConn : Type 0 where
  pub src_port : ℕ
  pub dst_host : Bytes
  pub dst_port : ℕ
  pub chain : List Proxy
  pub done : Bool

pub record Relay : Type 0 where
  pub running : Bool
  pub pending : List RelayEntry
  pub conns : List RelayConn
  pub stat_ok : ℕ
  pub stat_failed : ℕ

-- A reading of the clock minus an earlier one, in 64 bits.
abbrev pub since : ℕ → ℕ → ℕ
since now added_ms = (now + 2 ^ 64 - added_ms) % 2 ^ 64

abbrev pub fresh : ℕ → RelayEntry → Bool
fresh now e = ltb (since now e.added_ms) entry_ttl_ms

unfoldable pub unexpired : ℕ → List RelayEntry → List RelayEntry
unexpired now [] = []
unexpired now (e ∷ es) = let rest = unexpired now es in if fresh now e then e ∷ rest else rest

abbrev pub behind : RelayEntry → Option (List RelayEntry) → Option (List RelayEntry)
behind e none = none
behind e (some es) = some (e ∷ es)

-- The first entry of the port replaced, `none` if there is none.
unfoldable pub replaced : RelayEntry → List RelayEntry → Option (List RelayEntry)
replaced new [] = none
replaced new (e ∷ es) =
    let rest = behind e (replaced new es) in
    if e.src_port == new.src_port then some (new ∷ es) else rest

-- The entry in its slot, or in a new one if there is room.
abbrev pub with_entry :
    Relay → List RelayEntry → RelayEntry → Option (List RelayEntry) → Relay × Status
with_entry r es new (some es') = (record r { pending = es' }, ok)
with_entry r es new none =
    if leb max_pending (length es)
    then (record r { pending = es }, err_state)
    else (record r { pending = es ++ new ∷ [] }, ok)

-- pmx_relay_register; the clock is read at the expiry and again for the entry
unfoldable pub register : Relay → ℕ → Bytes → ℕ → List Proxy → ℕ → ℕ → Relay × Status
unfolding unexpired replaced strlcpy
register r src_port dst_host dst_port chain now later =
    if src_port == 0 || length chain == 0 || ltb max_chain_hops (length chain)
    then (r, err_invalid_arg)
    else let es = unexpired now r.pending in
      let new : RelayEntry = record {
        src_port = src_port;
        dst_host = strlcpy [] dst_host 256;
        dst_port = dst_port;
        chain = chain;
        added_ms = later;
      } in
      with_entry r es new (replaced new es)

abbrev pub onto :
    RelayEntry → Option (RelayEntry × List RelayEntry) → Option (RelayEntry × List RelayEntry)
onto e none = none
onto e (some (found, rest)) = some (found, e ∷ rest)

-- The first entry of the port, and the list without it.
unfoldable pub taken : ℕ → List RelayEntry → Option (RelayEntry × List RelayEntry)
taken src_port [] = none
taken src_port (e ∷ es) =
    let rest = onto e (taken src_port es) in if e.src_port == src_port then some (e, es) else rest

abbrev pub after_take :
    Relay → List RelayEntry → Option (RelayEntry × List RelayEntry) → Relay × Option RelayEntry
after_take r es none = (record r { pending = es }, none)
after_take r es (some (e, rest)) = (record r { pending = rest }, some e)

-- relay_take
unfoldable pub relay_take : Relay → ℕ → ℕ → Relay × Option RelayEntry
unfolding unexpired taken
relay_take r src_port now = let es = unexpired now r.pending in after_take r es (taken src_port es)

-- The connections that stay; those that are done, or all, are joined and freed.
unfoldable pub unreaped : Bool → List RelayConn → List RelayConn
unreaped all [] = []
unreaped all (c ∷ cs) = let rest = unreaped all cs in if all || c.done then rest else c ∷ rest

-- relay_reap
unfoldable pub relay_reap : Relay → Bool → Relay
unfolding unreaped
relay_reap r all = record r { conns = unreaped all r.conns }

abbrev pub conn_of : RelayEntry → RelayConn
conn_of e = record {
  src_port = e.src_port;
  dst_host = e.dst_host;
  dst_port = e.dst_port;
  chain = e.chain;
  done = false;
}

abbrev pub count_failed : Relay → Relay
count_failed r = record r { stat_failed = r.stat_failed + 1 }

-- The new connection, `started` if its thread runs.
unfoldable pub add_conn : Relay → RelayConn → Bool → Relay
add_conn r c started =
    if leb max_conns (length r.conns)
    then count_failed r
    else if started
    then record r { conns = r.conns ++ c ∷ [] }
    else count_failed (record r { conns = r.conns ++ record c { done = true } ∷ [] })

abbrev pub with_taken : Bool → Relay × Option RelayEntry → Relay
with_taken started (r, none) = count_failed r
with_taken started (r, some e) = add_conn r (conn_of e) started

-- One round of relay_accept_worker, for a connection that came from `peer_port`.
unfoldable pub accept : Relay → ℕ → ℕ → Bool → Relay
unfolding relay_reap relay_take add_conn
accept r peer_port now started = with_taken started (relay_take (relay_reap r false) peer_port now)

-- pmx_relay_active and pmx_relay_stats
abbrev pub relay_active : Relay → ℕ
relay_active r = length r.conns

abbrev pub relay_stats : Relay → ℕ × ℕ
relay_stats r = (r.stat_ok, r.stat_failed)
