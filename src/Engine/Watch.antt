-- ===== src/Engine/Watch.antt =====
-- src/core/pmx_engine.c: the watch on the proxy path that drives the kill switch. The checker runs
-- on a thread of its own; what it has pending and what it delivers are inputs here.
use proxi_might.Prelude.{
  ℕ, zero, suc, ◌+◌, ◌-◌, ◌%◌, ◌^◌, Bool, true, false, ◌&&◌, ◌||◌, not, Option, none, some, List,
  [], ◌∷◌, ◌++◌, map, leb, ◌==◌, if◌then◌else◌, take,
}
use proxi_might.Prelude.Bytes.{Bytes, byte_eq, strlcpy}
use proxi_might.Prelude.Decimal.{ℤ, positive_or}
use proxi_might.Status.{is_ok, Status, ok}
use proxi_might.Proxy.{Proxy}
use proxi_might.Vpn.{Vpn, VpnEndpoint}
use proxi_might.Profile.{Profile, copy}
use proxi_might.Profile.Edits.{find_proxy}
use proxi_might.Lockdown.{
  Mode, Policy, Endpoint, Firewall, Lockdown, max_allowlist, is_off, set_policy, set_allowlist, arm,
  disarm, on_health,
}
mod Tests

-- `allow_applied` is the part of the source's array below its count; `submitted` is the proxies
-- handed to pmx_checker_submit so far.
pub record Engine (F : Type 0) : Type 0 where
  pub profile : Profile
  pub snap : Profile
  pub lockdown : Lockdown F
  pub running : Bool
  pub last_health_submit_ms : ℕ
  pub health_proxy_id : ℕ
  pub allow_applied : List Endpoint
  pub submitted : List Proxy

-- One call of the pump: the clock, the checks that are still pending, those that have ended, and
-- whether memcmp finds a difference behind the ends of the texts.
pub record Tick : Type 0 where
  pub now_ms : ℕ
  pub pending : ℕ
  pub results : List Status
  pub tail_differs : Bool

unfoldable pub proxy_endpoints : List Proxy → List Endpoint
proxy_endpoints [] = []
proxy_endpoints (p ∷ ps) =
    let rest = proxy_endpoints ps in
    if p.enabled then record { host = p.host; port = p.port } ∷ rest else rest

abbrev pub endpoint_of : VpnEndpoint → Endpoint
endpoint_of v = record { host = v.host; port = v.port }

unfoldable pub vpn_endpoints : List Vpn → List Endpoint
vpn_endpoints [] = []
vpn_endpoints (v ∷ vs) =
    let rest = vpn_endpoints vs in if v.enabled then map endpoint_of v.endpoints ++ rest else rest

-- The first enabled proxy, or none, which is 0.
unfoldable pub first_enabled : List Proxy → ℕ
first_enabled [] = 0
first_enabled (p ∷ ps) = let rest = first_enabled ps in if p.enabled then p.id else rest

unfoldable pub endpoints_eq : List Endpoint → List Endpoint → Bool
unfolding byte_eq
endpoints_eq [] [] = true
endpoints_eq (a ∷ as1) (b ∷ bs) =
    let rest = endpoints_eq as1 bs in byte_eq a.host b.host && a.port == b.port && rest
endpoints_eq _ _ = false

-- The time since the last check, in 64 bits, has reached the interval, and no check is pending.
abbrev pub is_due : {F : Type 0} → Engine F → Tick → Bool
is_due e t =
    leb (positive_or e.profile.lockdown.health_interval_ms 4000)
      ((t.now_ms + 2 ^ 64 - e.last_health_submit_ms) % 2 ^ 64)
    && t.pending == 0

module _ {F : Type 0} (api : Firewall F) where
  unfoldable pub rebuild_allowlist : Engine F → Bool → Engine F
  unfolding proxy_endpoints vpn_endpoints first_enabled endpoints_eq set_allowlist
  rebuild_allowlist e tail_differs =
      let eps =
        take max_allowlist (proxy_endpoints e.profile.proxies ++ vpn_endpoints e.profile.vpns) in
      let changed = tail_differs || not (endpoints_eq eps e.allow_applied) in
      record e {
        lockdown = if changed then set_allowlist api e.lockdown eps else e.lockdown;
        allow_applied = if changed then eps else e.allow_applied;
        health_proxy_id = first_enabled e.profile.proxies;
      }

  -- pmx_engine_start, where `started` is the answer of the backend
  unfoldable pub start : Engine F → Status → Bool → Engine F × Status
  unfolding rebuild_allowlist set_policy arm
  start e started tail_differs =
      if e.running
      then (e, ok)
      else if not (is_ok started)
      then (e, started)
      else (let e1 = rebuild_allowlist e tail_differs in
          (
            record e1 {
              lockdown = (arm api (set_policy api e1.lockdown e1.profile.lockdown)).0;
              running = true;
              last_health_submit_ms = 0;
            },
            ok,
          ))

  -- pmx_engine_stop
  unfoldable pub stop : Engine F → Engine F × Status
  unfolding disarm
  stop e =
      if not e.running
      then (e, ok)
      else (record e { lockdown = disarm api e.lockdown; running = false }, ok)

  -- A check is submitted, or the path counts as down where no proxy is left to check.
  unfoldable pub check_path : Engine F → Tick → Engine F
  unfolding rebuild_allowlist find_proxy on_health
  check_path e t =
      let e1 = rebuild_allowlist e t.tail_differs in
      elim (find_proxy e1.profile e1.health_proxy_id) [
        | none ↦ record e1 {
          last_health_submit_ms = t.now_ms;
          lockdown = on_health api e1.lockdown false;
        }
        | some hp ↦ record e1 {
          last_health_submit_ms = t.now_ms;
          submitted = e1.submitted ++ hp ∷ [];
        }
      ]

  -- The loop on pmx_checker_poll.
  unfoldable pub take_results : Lockdown F → List Status → Lockdown F
  unfolding on_health
  take_results ld [] = ld
  take_results ld (st ∷ sts) = take_results (on_health api ld (is_ok st)) sts

  -- The last part of pmx_engine_pump.
  unfoldable pub service_lockdown : Engine F → Tick → Engine F
  unfolding check_path take_results
  service_lockdown e t =
      if not e.running || is_off e.profile.lockdown.mode || e.health_proxy_id == 0
      then e
      else (let e1 = if is_due e t then check_path e t else e in
          record e1 { lockdown = take_results e1.lockdown t.results })

  -- engine_refresh_snapshot, where the copy succeeds
  unfoldable pub refresh_snapshot : Engine F → Engine F
  unfolding copy
  refresh_snapshot e = record e { snap = copy e.snap e.profile }
