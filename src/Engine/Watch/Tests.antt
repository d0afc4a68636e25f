-- ===== src/Engine/Watch/Tests.antt =====
-- The watch on the proxy path evaluated on the stub firewall, and its theorems applied.
use proxi_might.Prelude.{ℕ, ◌≡◌, refl, true, false, some, List, [], ◌∷◌, arith}
use proxi_might.Proxy.{Proxy}
use proxi_might.Proxy as ProxyModule
use proxi_might.Profile.{Profile}
use proxi_might.Profile as ProfileModule
use proxi_might.Lockdown.{Lockdown, fail_closed, armed_healthy, policy_defaults}
use proxi_might.Lockdown.Stub.{StubFw, stub, stub_is_engaged}
use proxi_might.Lockdown.Hysteresis.{IsWatching}
use proxi_might.Engine.Watch.{Engine, Tick, service_lockdown, is_due}
use proxi_might.Engine.Lost.{Event, edited, pumped, happen, lost_path}

abbrev idle : StubFw
idle = record { engaged = false; allow = [] }

abbrev healthy : Lockdown StubFw
healthy = record {
  policy = policy_defaults;
  fw = some idle;
  allow = [];
  state = armed_healthy;
  fails = 0;
  succ = 0;
  armed = true;
}

-- The only proxy, disabled by the user while it was watched.
abbrev disabled_proxy : Proxy
disabled_proxy = record ProxyModule.init { id = 1; enabled = false }

abbrev enabled_proxy : Proxy
enabled_proxy = record ProxyModule.init { id = 1 }

abbrev with_proxies : List Proxy → Profile
with_proxies ps = record ProfileModule.init { proxies = ps }

abbrev running_engine : List Proxy → Engine StubFw
running_engine ps = record {
  profile = with_proxies ps;
  snap = with_proxies ps;
  lockdown = healthy;
  running = true;
  last_health_submit_ms = 0;
  health_proxy_id = 1;
  allow_applied = [];
  submitted = [];
}

abbrev tick : ℕ → Tick
tick now_ms = record { now_ms = now_ms; pending = 0; results = []; tail_differs = false }

abbrev later : List Event
later = pumped (tick 10000) ∷ edited (with_proxies (enabled_proxy ∷ [])) ∷ pumped (tick 20000) ∷ []

submits_check :
    (service_lockdown stub (running_engine (enabled_proxy ∷ [])) (tick 5000)).submitted
    ≡ enabled_proxy ∷ []
unfolding service_lockdown ProxyModule.init ProfileModule.init stub_is_engaged
submits_check = refl

disabled_due : is_due (running_engine (disabled_proxy ∷ [])) (tick 5000) ≡ true
unfolding ProfileModule.init
disabled_due = refl

healthy-IsWatching : IsWatching stub fail_closed 2 0 healthy.fw healthy
healthy-IsWatching = record {
  is_armed = refl;
  mode = refl;
  trip_at = refl;
  healthy = refl;
  failures = refl;
  firewall = refl;
}

lost_path_example :
    (happen stub
      (service_lockdown stub (running_engine (disabled_proxy ∷ [])) (tick 5000))
      later).lockdown.state
    ≡ armed_healthy
unfolding ProfileModule.init ProxyModule.init
lost_path_example =
    lost_path stub fail_closed 2 (running_engine (disabled_proxy ∷ [])) (tick 5000) later refl
      (omega arith) refl refl (omega arith) healthy-IsWatching (refl, tt) disabled_due refl
