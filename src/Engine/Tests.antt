-- ===== src/Engine/Tests.antt =====
-- Profiles resolved and watched, and the theorems on them applied.
use proxi_might.Prelude.{
  ◌-◌, get_elem?, ◌<◌, min, false, length, List, ℕ, ◌≡◌, ◌⊎◌, refl, true, none, some, [], ◌∷◌, ◌++◌,
  arith, All,
}
use proxi_might.Prelude.Bytes.{codes}
use proxi_might.Prelude.Decimal.{strtol}
use proxi_might.Prelude.Arrays.{remove_at}
use proxi_might.Status.{ok}
use proxi_might.Proxy.{Proxy}
use proxi_might.Proxy as ProxyModule
use proxi_might.Chain.{Chain, sequential, redundancy}
use proxi_might.Chain as ChainModule
use proxi_might.Chain.Moves.{FitsArray}
use proxi_might.Rule.{
  Rule, ConnQuery, direct, proxy, block, chain_target, proxy_target, rule_matches,
}
use proxi_might.Rule as RuleModule
use proxi_might.Rule.Ports.{port_spec_match}
use proxi_might.Profile.{Profile, index_of}
use proxi_might.Profile as ProfileModule
use proxi_might.Profile.Edits.{remove_proxy, find_proxy, find_chain}
use proxi_might.Engine.Resolve.{
  go_direct, resolve_with_profile, decision_of, via_of, via_chain, usable_hops,
}
use proxi_might.Engine.Complete.{IsComplete, resolve-IsComplete}
use proxi_might.Engine.Order.{fires, IsPassedOver, resolve_by_first}
use proxi_might.Engine.Removal.{remove_proxy_path}
use proxi_might.Engine.Ring.{Flow, ConnEvent, Ring, event_ring, recent_events, clear_events}
use proxi_might.Engine.Recent.{recorded, recent_events-recorded}
use proxi_might.Engine.Inbox.{
  InboxOp, arrives, links, pops, inbox_run, empty_trace, IsInOrder, inbox_run-IsInOrder,
}

abbrev tor : Proxy
tor = record ProxyModule.init { id = 1; port = 9050 }

abbrev exit : Proxy
exit = record ProxyModule.init { id = 2; port = 8080 }

abbrev path : Chain
path = record ChainModule.init { id = 3; hops = 1 ∷ 2 ∷ [] }

abbrev alternatives : Chain
alternatives = record ChainModule.init { id = 4; mode = redundancy; hops = 1 ∷ 2 ∷ [] }

abbrev mail : Rule
mail = record RuleModule.init { id = 5; port_spec = codes "25"; action = block }

abbrev web : Rule
web = record RuleModule.init {
  id = 6;
  port_spec = codes "443";
  action = proxy;
  target_kind = chain_target;
  target_id = 3;
}

abbrev home : Profile
home = record ProfileModule.init {
  proxies = tor ∷ exit ∷ [];
  chains = path ∷ alternatives ∷ [];
  rules = mail ∷ web ∷ [];
}

abbrev to_port : ℕ → ConnQuery
to_port port = record {
  app_name = some (codes "curl");
  app_path = none;
  host = some (codes "10.0.0.1");
  port = port;
}

by_path : (resolve_with_profile home (to_port 443)).via ≡ tor ∷ exit ∷ []
unfolding resolve_with_profile ProxyModule.init ChainModule.init RuleModule.init ProfileModule.init
    port_spec_match strtol
by_path = refl

alternatives_take_first : via_of home chain_target 4 ≡ (tor ∷ [], 1)
unfolding via_of via_chain usable_hops find_proxy find_chain ProxyModule.init ChainModule.init
alternatives_take_first = refl

broken_path : (resolve_with_profile (remove_proxy home 2).0 (to_port 443)).via ≡ []
unfolding resolve_with_profile remove_proxy ProxyModule.init ChainModule.init RuleModule.init
    ProfileModule.init port_spec_match strtol remove_at
broken_path = refl

home_fits : All FitsArray home.chains
unfolding ChainModule.init ProfileModule.init
home_fits = (record { fits = omega arith }, (record { fits = omega arith }, tt))

resolve-IsComplete_example : IsComplete home (resolve_with_profile home (to_port 443))
resolve-IsComplete_example = resolve-IsComplete home (to_port 443) home_fits

mail_passed : All (IsPassedOver (to_port 443)) (mail ∷ [])
unfolding rule_matches port_spec_match strtol RuleModule.init
mail_passed = (refl, tt)

fires-web : fires (to_port 443) web ≡ true
unfolding rule_matches port_spec_match strtol RuleModule.init
fires-web = refl

home_rules : home.rules ≡ (mail ∷ []) ++ web ∷ []
unfolding ProfileModule.init
home_rules = refl

resolve_by_first_example : resolve_with_profile home (to_port 443) ≡ decision_of home web
resolve_by_first_example =
    resolve_by_first home (mail ∷ []) [] web (to_port 443) home_rules mail_passed fires-web

removed : (remove_proxy home 2).1 ≡ ok
unfolding remove_proxy ProxyModule.init ProfileModule.init
removed = refl

path_found : find_chain home 3 ≡ some path
unfolding find_chain ChainModule.init ProfileModule.init
path_found = refl

remove_proxy_path_example :
    ((via_of (remove_proxy home 2).0 chain_target 3).0 ≡ [])
    ⊎ (via_of (remove_proxy home 2).0 chain_target 3 ≡ via_of home chain_target 3)
unfolding ChainModule.init
remove_proxy_path_example = remove_proxy_path home 2 3 path removed path_found refl

abbrev some_flow : ℕ → Flow
some_flow n = record {
  flow_id = n;
  app_name = codes "curl";
  app_path = [];
  pid = 1;
  dst_host = codes "10.0.0.1";
  dst_port = 443;
  udp = false;
  created_ms = n;
}

abbrev some_event : ℕ → ConnEvent
some_event n = record {
  flow_id = n;
  ts_ms = n;
  app_name = codes "curl";
  host = codes "10.0.0.1";
  port = 443;
  verdict = go_direct;
  via_label = [];
  rule_name = codes "Default";
}

abbrev blank : Ring
blank = record { events = λ i. some_event 0; event_head = 7; event_len = 9 }

-- Two events were recorded, of which the later one stands first here.
abbrev log : List ConnEvent
log = some_event 2 ∷ some_event 1 ∷ []

shows_in_order :
    recent_events (recorded (clear_events blank) log) 5 ≡ some_event 1 ∷ some_event 2 ∷ []
unfolding recent_events recorded clear_events
shows_in_order = refl

recent_events-recorded_example :
    (length (recent_events (recorded (clear_events blank) log) 1)
      ≡ min 1 (min event_ring (length log)))
    × ((i : ℕ)
        → i < length (recent_events (recorded (clear_events blank) log) 1)
        → get_elem? (recent_events (recorded (clear_events blank) log) 1) i
          ≡ get_elem? log (length (recent_events (recorded (clear_events blank) log) 1) - 1 - i))
recent_events-recorded_example = recent_events-recorded blank log 1

abbrev inbox_ops : List InboxOp
inbox_ops = arrives (some_flow 1) ∷ links ∷ arrives (some_flow 2) ∷ pops ∷ links ∷ []

pops_first : (inbox_run empty_trace inbox_ops).popped ≡ some_flow 1 ∷ []
unfolding inbox_run
pops_first = refl

inbox_run-IsInOrder_example : IsInOrder (inbox_run empty_trace inbox_ops)
inbox_run-IsInOrder_example = inbox_run-IsInOrder inbox_ops
