-- ===== src/Lockdown.antt =====
-- include/proximight/pmx_lockdown.h and src/core/pmx_lockdown.c: the kill switch. The controller
-- drives a firewall through the function pointers of `pmx_firewall`, here the record `Firewall` over
-- a state that the backend chooses; Lockdown/Stub.antt has the backend of the source. Logging is left
-- out. The counters are `int` in the source and are not bounded there either.
use proxi_might.Prelude.{
  ℕ, zero, suc, ◌+◌, Bool, true, false, ◌||◌, ◌&&◌, not, Option, none, some, List, [], ◌∷◌,
  if◌then◌else◌, take, ◌==◌,
}
use proxi_might.Prelude.Bytes.{Bytes}
use proxi_might.Prelude.Decimal.{ℤ, pos, negsuc, le_int}
use proxi_might.Status.{Status, ok, err_firewall}
pub mod Stub
pub mod Truth
pub mod Blocking
pub mod Hysteresis
mod Tests

-- A value that is none of the source's enumerators can come from a profile that was edited by hand.
pub data Mode : Type 0 where
  off fail_closed fail_backup fail_open : Mode
  unknown : ℕ → Mode

pub record Policy : Type 0 where
  pub mode : Mode
  pub block_until_verified : Bool
  pub block_dns_leak : Bool
  pub block_ipv6 : Bool
  pub health_interval_ms : ℤ
  pub failures_before_trip : ℤ
  pub successes_before_restore : ℤ

abbrev pub policy_defaults : Policy
policy_defaults = record {
  mode = fail_closed;
  block_until_verified = true;
  block_dns_leak = true;
  block_ipv6 = true;
  health_interval_ms = pos 4000;
  failures_before_trip = pos 2;
  successes_before_restore = pos 2;
}

pub record Endpoint : Type 0 where
  pub host : Bytes
  pub port : ℕ

abbrev pub max_allowlist : ℕ
max_allowlist = 32

-- The function pointers of `pmx_firewall` that the controller calls.
pub record Firewall (F : Type 0) : Type 0 where
  pub engage : F → List Endpoint → Policy → F × Status
  pub disengage : F → F
  pub is_engaged : F → Bool

pub data State : Type 0 where
  inactive armed_healthy tripped_blocking failing_over failed_open : State

-- `fw` is `none` where the source's pointer is NULL.
pub record Lockdown (F : Type 0) : Type 0 where
  pub policy : Policy
  pub fw : Option F
  pub allow : List Endpoint
  pub state : State
  pub fails : ℕ
  pub succ : ℕ
  pub armed : Bool

unfoldable pub mode_blocks : Mode → Bool
mode_blocks fail_closed = true
mode_blocks fail_backup = true
mode_blocks _ = false

unfoldable pub sanitize_mode : Mode → Mode
sanitize_mode (unknown m) = fail_closed
sanitize_mode m = m

abbrev pub is_off : Mode → Bool
is_off off = true
is_off _ = false

abbrev pub is_healthy_state : State → Bool
is_healthy_state armed_healthy = true
is_healthy_state _ = false

-- ld->policy.mode != prev, on the numbers of the enumerators
abbrev pub mode_eq : Mode → Mode → Bool
mode_eq off off = true
mode_eq fail_closed fail_closed = true
mode_eq fail_backup fail_backup = true
mode_eq fail_open fail_open = true
mode_eq (unknown m) (unknown m') = m == m'
mode_eq _ _ = false

unfoldable pub is_fail_open : Mode → Bool
is_fail_open fail_open = true
is_fail_open _ = false

module _ {F : Type 0} (api : Firewall F) where
  -- pmx_lockdown_create
  unfoldable pub create : Option Policy → Option F → Lockdown F
  create policy fw = record {
    policy = elim policy [ none ↦ policy_defaults | some p ↦ p ];
    fw = fw;
    allow = [];
    state = inactive;
    fails = 0;
    succ = 0;
    armed = false;
  }

  -- ld->fw != NULL && ld->fw->is_engaged(ld->fw)
  abbrev pub engaged : Lockdown F → Bool
  engaged ld = elim ld.fw [ none ↦ false | some f ↦ api.is_engaged f ]

  -- The firewall let go where it is engaged.
  unfoldable pub release : Lockdown F → Lockdown F
  release ld = elim ld.fw [
    | none ↦ ld
    | some f ↦ if api.is_engaged f then record ld { fw = some (api.disengage f) } else ld
  ]

  unfoldable pub apply_engage : Lockdown F → Lockdown F × Status
  apply_engage ld = elim ld.fw [
    | none ↦ (ld, err_firewall)
    | some f ↦ let (f', st) = api.engage f ld.allow ld.policy in (record ld { fw = some f' }, st)
  ]

  -- if (ld->fw == NULL || !ld->fw->is_engaged(ld->fw)) st = apply_engage(ld);
  unfoldable pub engage_if_needed : Lockdown F → Lockdown F × Status
  unfolding apply_engage
  engage_if_needed ld = if engaged ld then (ld, ok) else apply_engage ld

  -- The state that is reported after an attempt to block.
  abbrev pub report : Lockdown F × Status → State → Lockdown F × Status
  report (ld, ok) s = (record ld { state = s }, ok)
  report (ld, st) s = (record ld { state = failed_open }, st)

  pub lockdown_reconcile : Lockdown F → Lockdown F × Status
  unfolding release engage_if_needed mode_blocks
  lockdown_reconcile ld =
      let ld0 = record ld { fails = 0; succ = 0 } in
      if is_off ld.policy.mode
      then (record (release ld0) { state = inactive }, ok)
      else if mode_blocks ld.policy.mode
      then report (engage_if_needed ld0)
          (if ld.policy.block_until_verified then tripped_blocking else armed_healthy)
      else (record (release ld0) { state = armed_healthy }, ok)

  -- pmx_lockdown_set_policy
  unfoldable pub set_policy : Lockdown F → Policy → Lockdown F
  unfolding lockdown_reconcile sanitize_mode
  set_policy ld policy =
      let ld' = record ld { policy = record policy { mode = sanitize_mode policy.mode } } in
      if ld.armed && not (mode_eq ld'.policy.mode ld.policy.mode)
      then (lockdown_reconcile ld').0
      else ld'

  -- pmx_lockdown_set_allowlist; the status of the firewall is not looked at
  unfoldable pub set_allowlist : Lockdown F → List Endpoint → Lockdown F
  unfolding apply_engage
  set_allowlist ld eps =
      let ld' = record ld { allow = take max_allowlist eps } in
      if ld.armed && engaged ld then (apply_engage ld').0 else ld'

  -- pmx_lockdown_arm
  unfoldable pub arm : Lockdown F → Lockdown F × Status
  unfolding lockdown_reconcile sanitize_mode
  arm ld = lockdown_reconcile (record ld {
    armed = true;
    policy = record (ld.policy) { mode = sanitize_mode ld.policy.mode };
  })

  -- pmx_lockdown_disarm
  unfoldable pub disarm : Lockdown F → Lockdown F
  unfolding release
  disarm ld = record (release (record ld { armed = false })) { state = inactive }

  -- The proxy path went down: the switch on the mode.
  pub trip : Lockdown F → Mode → Lockdown F
  unfolding release engage_if_needed
  trip ld fail_closed = (report (engage_if_needed ld) tripped_blocking).0
  trip ld fail_backup = (report (engage_if_needed ld) failing_over).0
  trip ld fail_open = record (release ld) { state = failed_open }
  trip ld _ = ld

  pub restore : Lockdown F → Lockdown F
  unfolding release is_fail_open
  restore ld = record (if is_fail_open ld.policy.mode then release ld else ld) {
    state = armed_healthy;
  }

  -- One observation, counted.
  abbrev pub observe : Lockdown F → Bool → Lockdown F
  observe ld true = record ld { succ = ld.succ + 1; fails = 0 }
  observe ld false = record ld { fails = ld.fails + 1; succ = 0 }

  -- The transition that the counters call for.
  pub react : Lockdown F → Bool → Lockdown F
  unfolding trip restore
  react ld true =
      if not (is_healthy_state ld.state) && le_int ld.policy.successes_before_restore (pos ld.succ)
      then restore ld
      else ld
  react ld false =
      if is_healthy_state ld.state && le_int ld.policy.failures_before_trip (pos ld.fails)
      then trip ld ld.policy.mode
      else ld

  -- pmx_lockdown_on_health. `*changed` is whether the state is another than before.
  unfoldable pub on_health : Lockdown F → Bool → Lockdown F
  unfolding react
  on_health ld healthy =
      if not ld.armed || is_off ld.policy.mode then ld else react (observe ld healthy) healthy

  -- pmx_lockdown_destroy: what becomes of the firewall, which the controller only borrows
  unfoldable pub destroy : Lockdown F → Option F
  unfolding release
  destroy ld = if ld.armed then (release ld).fw else ld.fw
