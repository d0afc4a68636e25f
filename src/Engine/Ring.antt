-- ===== src/Engine/Ring.antt =====
-- src/core/pmx_engine.c: the ring of the last connection events, which the interface shows.
use proxi_might.Prelude.{ℕ, zero, suc, ◌+◌, ◌-◌, ◌%◌, Bool, List, [], ◌∷◌, ltb, ◌==◌, if◌then◌else◌}
use proxi_might.Prelude.Bytes.{Bytes, strlcpy}
use proxi_might.Engine.Resolve.{Verdict, Decision, max_label, max_name}

abbrev pub max_host : ℕ
max_host = 256

pub record Flow : Type 0 where
  pub flow_id : ℕ
  pub app_name : Bytes
  pub app_path : Bytes
  pub pid : ℕ
  pub dst_host : Bytes
  pub dst_port : ℕ
  pub udp : Bool
  pub created_ms : ℕ

pub record ConnEvent : Type 0 where
  pub flow_id : ℕ
  pub ts_ms : ℕ
  pub app_name : Bytes
  pub host : Bytes
  pub port : ℕ
  pub verdict : Verdict
  pub via_label : Bytes
  pub rule_name : Bytes

abbrev pub event_of : Flow → Decision → ConnEvent
event_of f d = record {
  flow_id = f.flow_id;
  ts_ms = f.created_ms;
  app_name = strlcpy [] f.app_name max_name;
  host = strlcpy [] f.dst_host max_host;
  port = f.dst_port;
  verdict = d.verdict;
  via_label = strlcpy [] d.via_label max_label;
  rule_name = strlcpy [] d.rule_name max_name;
}

abbrev pub event_ring : ℕ
event_ring = 512

-- The array by index, and the two fields that say which part of it is in use.
pub record Ring : Type 0 where
  pub events : ℕ → ConnEvent
  pub event_head : ℕ
  pub event_len : ℕ

abbrev pub put : (ℕ → ConnEvent) → ℕ → ConnEvent → ℕ → ConnEvent
put events idx ev i = if i == idx then ev else events i

-- record_event, of an event that is filled in
unfoldable pub push : Ring → ConnEvent → Ring
push r ev =
    if ltb r.event_len event_ring
    then record r {
      events = put r.events ((r.event_head + r.event_len) % event_ring) ev;
      event_len = r.event_len + 1;
    }
    else record r {
      events = put r.events r.event_head ev;
      event_head = (r.event_head + 1) % event_ring;
    }

unfoldable pub record_event : Ring → Flow → Decision → Ring
unfolding push
record_event r f d = push r (event_of f d)

-- `n` events from `start` on.
unfoldable pub copy_out : Ring → ℕ → ℕ → List ConnEvent
copy_out r start zero = []
copy_out r start (suc n) = r.events ((r.event_head + start) % event_ring) ∷ copy_out r (start + 1) n

-- pmx_engine_recent_events; `max` may be 0
unfoldable pub recent_events : Ring → ℕ → List ConnEvent
unfolding copy_out
recent_events r max =
    let n = if ltb r.event_len max then r.event_len else max in copy_out r (r.event_len - n) n

unfoldable pub clear_events : Ring → Ring
clear_events r = record r { event_head = 0; event_len = 0 }
