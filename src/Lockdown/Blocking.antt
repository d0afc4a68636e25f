-- ===== src/Lockdown/Blocking.antt =====
-- src/core/pmx_lockdown.c: an engaged kill switch over the calls of the engine.
use proxi_might.Prelude.{
  ◌≡◌, refl, sym, ap, ◌∙◌, Bool, true, false, ◌||◌, not, List, [], ◌∷◌, if◌then◌else◌, arith, inl,
  inr, Bool-cases, Option-cases, on_branches, take, All,
}
use proxi_might.Status.{Status, ok}
use proxi_might.Lockdown.{
  sanitize_mode, max_allowlist, Mode, Policy, Endpoint, Firewall, State, armed_healthy,
  tripped_blocking, failing_over, Lockdown, off, fail_closed, fail_backup, fail_open, unknown,
  engaged, apply_engage, engage_if_needed, report, lockdown_reconcile, set_policy, set_allowlist,
  arm, trip, restore, observe, react, on_health, is_off, mode_blocks, is_fail_open,
}
use proxi_might.Lockdown.Stub.{IsFirewall}
use proxi_might.Lockdown.Truth.{
  Op, policy_op, allowlist_op, arm_op, disarm_op, health_op, step, run, apply_engage-stays,
  engage_if_needed_lem,
}

-- The engine's calls that keep a blocking mode: all but disarming, and a policy only if its mode
-- blocks, where a mode that is not known counts as one that does.
abbrev pub IsBlockingOp : Op → Type 0
IsBlockingOp (policy_op p) = mode_blocks (sanitize_mode p.mode) ≡ true
IsBlockingOp disarm_op = ⊥
IsBlockingOp _ = Unit

module _ {F : Type 0} (api : Firewall F) where
  -- The kill switch is on and enforced.
  pub record IsEnforcing (ld : Lockdown F) : Type 0 where
    pub is_armed : ld.armed ≡ true
    pub blocking : mode_blocks ld.policy.mode ≡ true
    pub enforced : engaged api ld ≡ true

pub blocking-not_off : (m : Mode) → mode_blocks m ≡ true → is_off m ≡ false
unfolding mode_blocks
blocking-not_off off h = cc
blocking-not_off fail_closed h = refl
blocking-not_off _ h = refl

blocking-not_fail_open : (m : Mode) → mode_blocks m ≡ true → is_fail_open m ≡ false
unfolding mode_blocks is_fail_open
blocking-not_fail_open fail_open h = cc
blocking-not_fail_open fail_closed h = refl
blocking-not_fail_open _ h = refl

blocking-sanitize : (m : Mode) → mode_blocks m ≡ true → sanitize_mode m ≡ m
unfolding mode_blocks sanitize_mode
blocking-sanitize (unknown m) h = cc
blocking-sanitize fail_closed h = refl
blocking-sanitize _ h = refl

module _ {F : Type 0} (api : Firewall F) (laws : IsFirewall api) where
  -- A report on a successful attempt.
  report-ok :
      (r : Lockdown F × Status) (s : State)
      → r.1 ≡ ok
      → report api r s ≡ (record (r.0) { state = s }, ok)
  report-ok (ld, ok) s h = refl
  report-ok (ld, _) s h = absurd (ground arith)

  engage_if_needed-engaged :
      (ld : Lockdown F) → engaged api ld ≡ true → engage_if_needed api ld ≡ (ld, ok)
  unfolding engage_if_needed
  engage_if_needed-engaged ld h = rw h

  reconcile-IsEnforcing :
      (ld : Lockdown F)
      → ld.armed ≡ true
      → mode_blocks ld.policy.mode ≡ true
      → engaged api ld ≡ true
      → IsEnforcing api (lockdown_reconcile api ld).0
  unfolding lockdown_reconcile
  reconcile-IsEnforcing ld a m h = rw (blocking-not_off ld.policy.mode m) (
      rw m (
        rw (engage_if_needed-engaged (record ld { fails = 0; succ = 0 }) h)
          (record { is_armed = a; blocking = m; enforced = h })))

  set_policy-IsEnforcing :
      (ld : Lockdown F) (p : Policy)
      → mode_blocks (sanitize_mode p.mode) ≡ true
      → IsEnforcing api ld
      → IsEnforcing api (set_policy api ld p)
  unfolding set_policy
  set_policy-IsEnforcing ld p m v =
      let ld' = record ld { policy = record p { mode = sanitize_mode p.mode } } in
      on_branches (IsEnforcing api) _ (lockdown_reconcile api ld').0 ld'
        (λ _. reconcile-IsEnforcing ld' v.is_armed m v.enforced)
        (λ _. record { is_armed = v.is_armed; blocking = m; enforced = v.enforced })

  apply_engage-same :
      (ld : Lockdown F)
      → ((apply_engage api ld).0.armed ≡ ld.armed)
        × ((apply_engage api ld).0.policy ≡ ld.policy)
        × ((apply_engage api ld).0.state ≡ ld.state)
  unfolding apply_engage
  apply_engage-same ld = elim (Option-cases ld.fw) [
    | inl e ↦ rw (e, apply_engage) (refl, refl, refl)
    | inr (f, e) ↦ rw (e, apply_engage) (refl, refl, refl)
  ]

  set_allowlist-IsEnforcing :
      (ld : Lockdown F) (eps : List Endpoint)
      → IsEnforcing api ld
      → IsEnforcing api (set_allowlist api ld eps)
  unfolding set_allowlist
  set_allowlist-IsEnforcing ld eps v =
      let ld' = record ld { allow = take max_allowlist eps } in
      let (a, p, s) = apply_engage-same ld' in
      on_branches (IsEnforcing api) _ (apply_engage api ld').0 ld'
        (λ _. record {
          is_armed = a ∙ v.is_armed;
          blocking = ap (λ (q : Policy). mode_blocks q.mode) p ∙ v.blocking;
          enforced = apply_engage-stays api laws ld' v.enforced;
        })
        (λ _. record { is_armed = v.is_armed; blocking = v.blocking; enforced = v.enforced })

  arm-IsEnforcing : (ld : Lockdown F) → IsEnforcing api ld → IsEnforcing api (arm api ld).0
  unfolding arm
  arm-IsEnforcing ld v =
      let ld' = record ld {
        armed = true;
        policy = record (ld.policy) { mode = sanitize_mode ld.policy.mode };
      } in
      reconcile-IsEnforcing ld' refl (rw (blocking-sanitize ld.policy.mode v.blocking) v.blocking)
        v.enforced

  trip-IsEnforcing :
      (ld : Lockdown F) (m : Mode)
      → mode_blocks m ≡ true
      → IsEnforcing api ld
      → IsEnforcing api (trip api ld m)
  unfolding trip mode_blocks
  trip-IsEnforcing ld fail_closed h v =
      let e : trip api ld fail_closed ≡ record ld { state = tripped_blocking } =
        ap (λ (r : Lockdown F × Status). (report api r tripped_blocking).0)
          (engage_if_needed-engaged ld v.enforced) in
      rw e (record { is_armed = v.is_armed; blocking = v.blocking; enforced = v.enforced })
  trip-IsEnforcing ld fail_backup h v =
      let e : trip api ld fail_backup ≡ record ld { state = failing_over } =
        ap (λ (r : Lockdown F × Status). (report api r failing_over).0)
          (engage_if_needed-engaged ld v.enforced) in
      rw e (record { is_armed = v.is_armed; blocking = v.blocking; enforced = v.enforced })
  trip-IsEnforcing ld _ h v = cc

  restore-IsEnforcing : (ld : Lockdown F) → IsEnforcing api ld → IsEnforcing api (restore api ld)
  unfolding restore
  restore-IsEnforcing ld v =
      rw (blocking-not_fail_open ld.policy.mode v.blocking)
        (record { is_armed = v.is_armed; blocking = v.blocking; enforced = v.enforced })

  observe-IsEnforcing :
      (ld : Lockdown F) (b : Bool) → IsEnforcing api ld → IsEnforcing api (observe api ld b)
  observe-IsEnforcing ld true v = record {
    is_armed = v.is_armed;
    blocking = v.blocking;
    enforced = v.enforced;
  }
  observe-IsEnforcing ld false v = record {
    is_armed = v.is_armed;
    blocking = v.blocking;
    enforced = v.enforced;
  }

  react-IsEnforcing :
      (ld : Lockdown F) (b : Bool) → IsEnforcing api ld → IsEnforcing api (react api ld b)
  unfolding react
  react-IsEnforcing ld true v =
      on_branches (IsEnforcing api) _ (restore api ld) ld (λ _. restore-IsEnforcing ld v) (λ _. v)
  react-IsEnforcing ld false v =
      on_branches (IsEnforcing api) _ (trip api ld ld.policy.mode) ld
        (λ _. trip-IsEnforcing ld ld.policy.mode v.blocking v) (λ _. v)

  step-IsEnforcing :
      (ld : Lockdown F) (o : Op)
      → IsBlockingOp o
      → IsEnforcing api ld
      → IsEnforcing api (step api ld o)
  unfolding step
  step-IsEnforcing ld (policy_op p) h v = set_policy-IsEnforcing ld p h v
  step-IsEnforcing ld (allowlist_op eps) h v = set_allowlist-IsEnforcing ld eps v
  step-IsEnforcing ld arm_op h v = arm-IsEnforcing ld v
  step-IsEnforcing ld disarm_op h v = absurd h
  step-IsEnforcing ld (health_op b) h v =
      unfold on_health in
      on_branches (IsEnforcing api) (not ld.armed || is_off ld.policy.mode) ld
        (react api (observe api ld b) b) (λ _. v)
        (λ _. react-IsEnforcing (observe api ld b) b (observe-IsEnforcing ld b v))

  report_status : (r : Lockdown F × Status) (s : State) → (report api r s).1 ≡ r.1
  report_status (ld, ok) s = refl
  report_status (ld, _) s = refl

  engage_if_needed-same :
      (ld : Lockdown F)
      → ((engage_if_needed api ld).0.armed ≡ ld.armed)
        × ((engage_if_needed api ld).0.policy ≡ ld.policy)
  unfolding engage_if_needed
  engage_if_needed-same ld = elim (Bool-cases (engaged api ld)) [
    | inl e ↦ rw e (refl, refl)
    | inr e ↦ let (a, p, s) = apply_engage-same ld in rw e (a, p)
  ]

  -- A reconciliation in a blocking mode that reports success has engaged the firewall.
  reconcile_enforces :
      (ld : Lockdown F)
      → ld.armed ≡ true
      → mode_blocks ld.policy.mode ≡ true
      → (lockdown_reconcile api ld).1 ≡ ok
      → IsEnforcing api (lockdown_reconcile api ld).0
  reconcile_enforces ld a m h =
      let ld0 = record ld { fails = 0; succ = 0 } in
      let s = if ld.policy.block_until_verified then tripped_blocking else armed_healthy in
      let r = engage_if_needed api ld0 in
      let e : lockdown_reconcile api ld ≡ report api r s =
        unfold lockdown_reconcile in rw (blocking-not_off ld.policy.mode m) (rw m) in
      let done : r.1 ≡ ok =
        sym (report_status r s) ∙ ap (λ (x : Lockdown F × Status). x.1) (sym e) ∙ h in
      let (a', p') = engage_if_needed-same ld0 in
      rw (e ∙ report-ok r s done) (record {
        is_armed = a' ∙ a;
        blocking = ap (λ (q : Policy). mode_blocks q.mode) p' ∙ m;
        enforced = engage_if_needed_lem api laws ld0 done;
      })

  run-IsEnforcing :
      (ld : Lockdown F) (os : List Op)
      → All IsBlockingOp os
      → IsEnforcing api ld
      → IsEnforcing api (run api ld os)
  unfolding run
  run-IsEnforcing ld [] h v = v
  run-IsEnforcing ld (o ∷ os) (h, hs) v =
      run-IsEnforcing (step api ld o) os hs (step-IsEnforcing ld o h v)

  -- Given a firewall that keeps its contract, a kill switch that was armed with success in a
  -- blocking mode, or in a mode that is not known, stays armed in a blocking mode with the
  -- firewall engaged through any further calls, except disarming and policies whose mode does not
  -- block.
  pub run-arm-IsEnforcing :
      (ld : Lockdown F) (os : List Op)
      → mode_blocks (sanitize_mode ld.policy.mode) ≡ true
      → (arm api ld).1 ≡ ok
      → All IsBlockingOp os
      → IsEnforcing api (run api (arm api ld).0 os)
  run-arm-IsEnforcing ld os m h hs = run-IsEnforcing (arm api ld).0 os hs (
      unfold arm in
      reconcile_enforces
        (record ld {
          armed = true;
          policy = record (ld.policy) { mode = sanitize_mode ld.policy.mode };
        })
        refl m h)
