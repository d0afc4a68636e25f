-- ===== src/Engine/Pump.antt =====
-- src/core/pmx_engine.c: what pmx_engine_pump does with the flows that it takes from the inbox.
use proxi_might.Prelude.{ℕ, ◌+◌, ◌%◌, ◌^◌, List, [], ◌∷◌, ◌++◌, some}
use proxi_might.Rule.{ConnQuery}
use proxi_might.Profile.{Profile}
use proxi_might.Engine.Resolve.{
  Decision, Verdict, go_direct, go_proxy, go_block, resolve_with_profile,
}
use proxi_might.Engine.Ring.{Flow, Ring, record_event}

-- The ring, the counters of pmx_engine_status, and what the backend was told to apply.
pub record Traffic : Type 0 where
  pub ring : Ring
  pub flows_total : ℕ
  pub flows_proxied : ℕ
  pub flows_direct : ℕ
  pub flows_blocked : ℕ
  pub applied : List (Flow × Decision)

abbrev pub query_of : Flow → ConnQuery
query_of f = record {
  app_name = some f.app_name;
  app_path = some f.app_path;
  host = some f.dst_host;
  port = f.dst_port;
}

abbrev count_of : ℕ → ℕ
count_of n = (n + 1) % 2 ^ 64

abbrev count_verdict : Traffic → Verdict → Traffic
count_verdict t go_proxy = record t { flows_proxied = count_of t.flows_proxied }
count_verdict t go_direct = record t { flows_direct = count_of t.flows_direct }
count_verdict t go_block = record t { flows_blocked = count_of t.flows_blocked }

abbrev enforce_flow : Traffic → Flow → Decision → Traffic
enforce_flow t f d =
    count_verdict
      (record t {
        ring = record_event t.ring f d;
        flows_total = count_of t.flows_total;
        applied = t.applied ++ (f, d) ∷ [];
      })
      d.verdict

-- One round of the loop.
unfoldable pub pump_flow : Profile → Traffic → Flow → Traffic
unfolding resolve_with_profile record_event
pump_flow pf t f = enforce_flow t f (resolve_with_profile pf (query_of f))

-- The loop, on the flows that inbox_pop gives.
unfoldable pub pump_flows : Profile → Traffic → List Flow → Traffic
unfolding pump_flow
pump_flows pf t [] = t
pump_flows pf t (f ∷ fs) = pump_flows pf (pump_flow pf t f) fs
