-- ===== src/Engine/Lost.antt =====
-- src/core/pmx_engine.c: the watch on the proxy path where no proxy is left.
use proxi_might.Prelude.{
  ℕ, ◌<◌, ◌≡◌, ◌≢◌, refl, ap, ◌∙◌, Bool, true, false, ◌&&◌, ◌||◌, not, Option, none, some, List, [],
  ◌∷◌, ◌++◌, ◌==◌, if◌then◌else◌, take, All, arith, inl, inr, Option-cases, on_branches,
}
use proxi_might.Proxy.{Proxy}
use proxi_might.Profile.{Profile}
use proxi_might.Profile.Edits.{find_proxy}
use proxi_might.Lockdown.{
  Mode, Endpoint, Firewall, armed_healthy, Lockdown, max_allowlist, is_off, set_allowlist,
  apply_engage, on_health, engaged,
}
use proxi_might.Lockdown.Hysteresis.{IsWatching, observations, observations-IsWatching}
use proxi_might.Profile.Edits.{find_proxy-zero}
use proxi_might.Engine.Watch.{
  Engine, Tick, proxy_endpoints, vpn_endpoints, first_enabled, endpoints_eq, rebuild_allowlist,
  is_due, check_path, take_results, service_lockdown,
}

-- What happens to a running engine: the user edits the profile, or the pump is called.
pub data Event : Type 0 where
  edited : Profile → Event
  pumped : Tick → Event

abbrev pub IsDisabled : Proxy → Type 0
IsDisabled p = p.enabled ≡ false

first_enabled-none : (ps : List Proxy) → All IsDisabled ps → first_enabled ps ≡ 0
unfolding first_enabled
first_enabled-none [] v = refl
first_enabled-none (p ∷ ps) (v, vs) =
    ap (λ (b : Bool). if b then p.id else first_enabled ps) v ∙ first_enabled-none ps vs

module _ {F : Type 0} (api : Firewall F) where
  unfoldable pub happen : Engine F → List Event → Engine F
  unfolding service_lockdown
  happen e [] = e
  happen e (edited pf ∷ vs) = happen (record e { profile = pf }) vs
  happen e (pumped t ∷ vs) = happen (service_lockdown api e t) vs

  service_unwatched :
      (e : Engine F) (t : Tick) → e.health_proxy_id ≡ 0 → service_lockdown api e t ≡ e
  unfolding service_lockdown
  service_unwatched e t h =
      let c : (not e.running || is_off e.profile.lockdown.mode || e.health_proxy_id == 0) ≡ true =
        ground arith in
      let e1 = if is_due e t then check_path api e t else e in
      ap
        (λ (b : Bool).
          if b then e else record e1 { lockdown = take_results api e1.lockdown t.results })
        c

  -- An engine that watches no proxy leaves the kill switch as it is through all edits of the
  -- profile and calls of the pump.
  pub happen_unwatched :
      (e : Engine F) (vs : List Event) → e.health_proxy_id ≡ 0 → (happen e vs).lockdown ≡ e.lockdown
  unfolding happen
  happen_unwatched e [] h = refl
  happen_unwatched e (edited pf ∷ vs) h = happen_unwatched (record e { profile = pf }) vs h
  happen_unwatched e (pumped t ∷ vs) h =
      ap (λ (x : Engine F). (happen x vs).lockdown) (service_unwatched e t h)
      ∙ happen_unwatched e vs h

  -- An attempt changes nothing but the firewall.
  apply_engage-same :
      (ld : Lockdown F) → (o : Option F) × ((apply_engage api ld).0 ≡ record ld { fw = o })
  unfolding apply_engage
  apply_engage-same ld = elim (Option-cases ld.fw) [
    | inl e ↦ (none, rw (e, apply_engage) (ap (λ (o : Option F). record ld { fw = o }) e))
    | inr (f, e) ↦
        let f' = (api.engage f ld.allow ld.policy).0 in (some f', rw (e, apply_engage) refl)
  ]

  set_allowlist-same :
      (m : Mode) (threshold fails : ℕ) (ld : Lockdown F) (eps : List Endpoint)
      → IsWatching api m threshold fails ld.fw ld
      → IsWatching api m threshold fails (set_allowlist api ld eps).fw (set_allowlist api ld eps)
  unfolding set_allowlist
  set_allowlist-same m threshold fails ld eps v =
      let ld' = record ld { allow = take max_allowlist eps } in
      let same : IsWatching api m threshold fails ld'.fw ld' = record {
        is_armed = v.is_armed;
        mode = v.mode;
        trip_at = v.trip_at;
        healthy = v.healthy;
        failures = v.failures;
        firewall = refl;
      } in
      on_branches (λ (x : Lockdown F). IsWatching api m threshold fails x.fw x)
        (ld.armed && engaged api ld) (apply_engage api ld').0 ld'
        (λ _.
          let (o, q) = apply_engage-same ld' in
          rw q (record {
            is_armed = v.is_armed;
            mode = v.mode;
            trip_at = v.trip_at;
            healthy = v.healthy;
            failures = v.failures;
            firewall = refl;
          }))
        (λ _. same)

  rebuild-same :
      (m : Mode) (threshold : ℕ) (e : Engine F) (tail_differs : Bool)
      → IsWatching api m threshold 0 e.lockdown.fw e.lockdown
      → IsWatching api m threshold 0
          (rebuild_allowlist api e tail_differs).lockdown.fw
          (rebuild_allowlist api e tail_differs).lockdown
  unfolding rebuild_allowlist
  rebuild-same m threshold e tail_differs v =
      let eps =
        take max_allowlist (proxy_endpoints e.profile.proxies ++ vpn_endpoints e.profile.vpns) in
      on_branches (λ (x : Lockdown F). IsWatching api m threshold 0 x.fw x)
        (tail_differs || not (endpoints_eq eps e.allow_applied)) (set_allowlist api e.lockdown eps)
        e.lockdown (λ _. set_allowlist-same m threshold 0 e.lockdown eps v) (λ _. v)

  -- A call of the pump that checks the path, and no results.
  service_due :
      (m : Mode) (e : Engine F) (t : Tick)
      → is_off m ≡ false
      → e.running ≡ true
      → e.profile.lockdown.mode ≡ m
      → e.health_proxy_id ≢ 0
      → is_due e t ≡ true
      → t.results ≡ []
      → service_lockdown api e t ≡ check_path api e t
  unfolding service_lockdown take_results
  service_due m e t on r pm w due nil =
      let watched : is_off e.profile.lockdown.mode ≡ false = ap is_off pm ∙ on in
      let c : (not e.running || is_off e.profile.lockdown.mode || e.health_proxy_id == 0) ≡ false =
        ground arith in
      let e1 = if is_due e t then check_path api e t else e in
      let e2 = record e1 { lockdown = take_results api e1.lockdown t.results } in
      ap (λ (b : Bool). if b then e else e2) c
      ∙ ap (λ sts. record e1 { lockdown = take_results api e1.lockdown sts }) nil
      ∙ ap (λ (b : Bool). if b then check_path api e t else e) due

  -- A running engine whose kill switch is armed, healthy and without failures, in a mode other
  -- than off and with a threshold above 1, never trips if a due check finds all proxies disabled
  -- and there are no results: it stays armed_healthy through all later edits of the profile and
  -- calls of the pump.
  pub lost_path :
      (m : Mode) (threshold : ℕ) (e : Engine F) (t : Tick) (vs : List Event)
      → is_off m ≡ false
      → 1 < threshold
      → e.running ≡ true
      → e.profile.lockdown.mode ≡ m
      → e.health_proxy_id ≢ 0
      → IsWatching api m threshold 0 e.lockdown.fw e.lockdown
      → All IsDisabled e.profile.proxies
      → is_due e t ≡ true
      → t.results ≡ []
      → (happen (service_lockdown api e t) vs).lockdown.state ≡ armed_healthy
  lost_path m threshold e t vs on high r pm w v dis due nil =
      let e1 = rebuild_allowlist api e t.tail_differs in
      let gone : e1.health_proxy_id ≡ 0 =
        unfold rebuild_allowlist in first_enabled-none e.profile.proxies dis in
      let c1 : IsWatching api m threshold 0 e1.lockdown.fw e1.lockdown =
        rebuild-same m threshold e t.tail_differs v in
      let checked : check_path api e t ≡ record e1 {
        last_health_submit_ms = t.now_ms;
        lockdown = on_health api e1.lockdown false;
      } =
        unfold check_path in
        rw (ap (find_proxy e.profile) gone ∙ find_proxy-zero e.profile, check_path) refl in
      let served : service_lockdown api e t ≡ check_path api e t =
        service_due m e t on r pm w due nil in
      let after = record e1 {
        last_health_submit_ms = t.now_ms;
        lockdown = on_health api e1.lockdown false;
      } in
      let w2 =
        observations-IsWatching api m threshold e1.lockdown.fw on 0 e1.lockdown (false ∷ []) c1
          (high, tt) in
      let calm : (on_health api e1.lockdown false).state ≡ armed_healthy =
        unfold observations in w2.healthy in
      ap (λ (x : Engine F). (happen x vs).lockdown.state) (served ∙ checked)
      ∙ ap (λ (l : Lockdown F). l.state) (happen_unwatched after vs gone)
      ∙ calm
