-- ===== src/Lockdown/Tests.antt =====
-- src/core/pmx_lockdown.c: the kill switch evaluated on the stub firewall, and its theorems applied.
use proxi_might.Prelude.{All, ◌≡◌, refl, true, false, none, some, List, [], ◌∷◌, ◌++◌, arith, Bool}
use proxi_might.Status.{ok, err_firewall}
use proxi_might.Lockdown.{
  policy_defaults, Lockdown, fail_closed, fail_backup, unknown, armed_healthy, tripped_blocking,
  create, arm, set_policy, on_health, lockdown_reconcile, engage_if_needed, apply_engage,
  mode_blocks, sanitize_mode,
}
use proxi_might.Lockdown.Stub.{StubFw, stub, stub-IsFirewall, stub_engage, stub_is_engaged}
use proxi_might.Lockdown.Truth.{
  Op, policy_op, allowlist_op, arm_op, health_op, run, IsTruthful, run-IsTruthful,
}
use proxi_might.Lockdown.Blocking.{IsBlockingOp, IsEnforcing, run-arm-IsEnforcing}
use proxi_might.Lockdown.Hysteresis.{
  observations, IsWatching, observations-IsWatching, observations_trip, tripped,
}

abbrev idle : StubFw
idle = record { engaged = false; allow = [] }

abbrev held : StubFw
held = record { engaged = true; allow = [] }

abbrev watching : Lockdown StubFw
watching = record {
  policy = policy_defaults;
  fw = some held;
  allow = [];
  state = armed_healthy;
  fails = 0;
  succ = 0;
  armed = true;
}

abbrev bare : Lockdown StubFw
bare = create stub none none

abbrev fresh : Lockdown StubFw
fresh = create stub none (some idle)

arm_without_firewall : (arm stub bare).1 ≡ err_firewall
unfolding arm create lockdown_reconcile engage_if_needed apply_engage
arm_without_firewall = refl

unknown_mode_blocks :
    (set_policy stub watching (record policy_defaults { mode = unknown 9 })).policy.mode
    ≡ fail_closed
unfolding set_policy lockdown_reconcile engage_if_needed apply_engage
unknown_mode_blocks = refl

trips_at_two : (observations stub watching (false ∷ false ∷ [])).state ≡ tripped_blocking
unfolding observations on_health stub_is_engaged
trips_at_two = refl

restores_at_two :
    (observations stub watching (false ∷ false ∷ true ∷ true ∷ [])).state ≡ armed_healthy
unfolding observations on_health stub_is_engaged
restores_at_two = refl

abbrev calls : List Op
calls =
    health_op false
    ∷ allowlist_op []
    ∷ arm_op
    ∷ health_op true
    ∷ health_op true
    ∷ policy_op (record policy_defaults { mode = fail_backup })
    ∷ health_op false
    ∷ []

default_blocks : mode_blocks (sanitize_mode (create stub none (some idle)).policy.mode) ≡ true
unfolding create mode_blocks sanitize_mode
default_blocks = refl

blocks : mode_blocks fail_closed ≡ true
unfolding mode_blocks
blocks = refl

armed_ok : (arm stub fresh).1 ≡ ok
unfolding arm create lockdown_reconcile engage_if_needed apply_engage stub_engage stub_is_engaged
armed_ok = refl

calls-All : All IsBlockingOp calls
unfolding mode_blocks sanitize_mode
calls-All = (tt, (tt, (tt, (tt, (tt, (refl, (tt, tt)))))))

run-IsTruthful_example : IsTruthful stub (run stub fresh calls)
run-IsTruthful_example = run-IsTruthful stub stub-IsFirewall none (some idle) calls

run-arm-IsEnforcing_example : IsEnforcing stub (run stub (arm stub fresh).0 calls)
run-arm-IsEnforcing_example =
    run-arm-IsEnforcing stub stub-IsFirewall fresh calls default_blocks armed_ok calls-All

abbrev flapping : List Bool
flapping = false ∷ true ∷ false ∷ []

watching-IsWatching : IsWatching stub fail_closed 2 0 (some held) watching
watching-IsWatching = record {
  is_armed = refl;
  mode = refl;
  trip_at = refl;
  healthy = refl;
  failures = refl;
  firewall = refl;
}

observations-IsWatching_example :
    IsWatching stub fail_closed 2 1 (some held) (observations stub watching flapping)
observations-IsWatching_example =
    observations-IsWatching stub fail_closed 2 (some held) refl 0 watching flapping
      watching-IsWatching (omega arith, (omega arith, tt))

observations_trip_example :
    ((observations stub watching flapping).state ≡ armed_healthy)
    × ((observations stub watching (flapping ++ false ∷ [])).state ≡ tripped fail_closed)
unfolding stub_is_engaged
observations_trip_example =
    observations_trip stub fail_closed 2 held 0 watching flapping blocks refl watching-IsWatching
      (omega arith, (omega arith, tt)) (omega arith)
