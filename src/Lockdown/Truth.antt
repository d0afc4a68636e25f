-- ===== src/Lockdown/Truth.antt =====
-- src/core/pmx_lockdown.c: the reported state and the firewall over all calls of the engine.
use proxi_might.Prelude.{
  ◌≡◌, refl, Bool, true, false, ◌&&◌, not, Option, List, [], ◌∷◌, if◌then◌else◌, arith, inl, inr,
  Bool-cases, Option-cases, on_branches, take,
}
use proxi_might.Status.{Status, ok}
use proxi_might.Lockdown.{
  sanitize_mode, mode_eq, max_allowlist, Mode, Policy, Endpoint, Firewall, State, armed_healthy,
  tripped_blocking, failing_over, Lockdown, off, fail_closed, fail_backup, fail_open, unknown,
  create, engaged, release, apply_engage, engage_if_needed, report, lockdown_reconcile, set_policy,
  set_allowlist, arm, disarm, trip, restore, observe, react, on_health, is_off, mode_blocks,
}
use proxi_might.Lockdown.Stub.{IsFirewall}

-- The states that tell the user that egress is blocked.
abbrev pub claims_blocking : State → Bool
claims_blocking tripped_blocking = true
claims_blocking failing_over = true
claims_blocking _ = false

-- The calls that the engine makes of a controller.
pub data Op : Type 0 where
  policy_op : Policy → Op
  allowlist_op : List Endpoint → Op
  arm_op disarm_op : Op
  health_op : Bool → Op

module _ {F : Type 0} (api : Firewall F) where
  unfoldable pub step : Lockdown F → Op → Lockdown F
  step ld (policy_op p) = set_policy api ld p
  step ld (allowlist_op eps) = set_allowlist api ld eps
  step ld arm_op = (arm api ld).0
  step ld disarm_op = disarm api ld
  step ld (health_op b) = on_health api ld b

  unfoldable pub run : Lockdown F → List Op → Lockdown F
  unfolding step
  run ld [] = ld
  run ld (o ∷ os) = run (step ld o) os

  -- A state that claims to block comes with a firewall that does.
  pub record IsTruthful (ld : Lockdown F) : Type 0 where
    pub blocks : claims_blocking ld.state ≡ true → engaged api ld ≡ true

module _ {F : Type 0} (api : Firewall F) (laws : IsFirewall api) where
  -- A successful attempt leaves the firewall engaged.
  pub engage_if_needed_lem :
      (ld : Lockdown F)
      → (engage_if_needed api ld).1 ≡ ok
      → engaged api (engage_if_needed api ld).0 ≡ true
  unfolding engage_if_needed
  engage_if_needed_lem ld h = elim (Option-cases ld.fw) [
    | inl e ↦ ground arith
    | inr (f, e) ↦ ground (arith, laws.engages f ld.allow ld.policy)
  ]

  -- No attempt lets go of a firewall that is engaged.
  pub apply_engage-stays :
      (ld : Lockdown F) → engaged api ld ≡ true → engaged api (apply_engage api ld).0 ≡ true
  unfolding apply_engage
  apply_engage-stays ld h = elim (Option-cases ld.fw) [
    | inl e ↦ absurd (ground arith)
    | inr (f, e) ↦ ground (arith, laws.stays f ld.allow ld.policy)
  ]

  pub engaged-release : (ld : Lockdown F) → engaged api (release api ld) ≡ false
  unfolding release
  engaged-release ld = elim (Option-cases ld.fw) [
    | inl e ↦ ground arith
    | inr (f, e) ↦ ground (arith, laws.releases f)
  ]

  report-IsTruthful :
      (r : Lockdown F × Status) (s : State)
      → (r.1 ≡ ok → engaged api r.0 ≡ true)
      → IsTruthful api (report api r s).0
  report-IsTruthful (ld, ok) s h = record { blocks = λ _. h refl }
  report-IsTruthful (ld, _) s h = record { blocks = λ e. cc }

  pub reconcile-IsTruthful : (ld : Lockdown F) → IsTruthful api (lockdown_reconcile api ld).0
  unfolding lockdown_reconcile
  reconcile-IsTruthful ld =
      let ld0 = record ld { fails = 0; succ = 0 } in
      elim (Bool-cases (is_off ld.policy.mode)) [
        | inl o ↦ rw o (record { blocks = λ e. cc })
        | inr o ↦ elim (Bool-cases (mode_blocks ld.policy.mode)) [
          | inl b ↦ rw o (
              rw b (
                report-IsTruthful (engage_if_needed api ld0)
                  (if ld.policy.block_until_verified then tripped_blocking else armed_healthy)
                  (engage_if_needed_lem ld0)))
          | inr b ↦ rw o (rw b (record { blocks = λ e. cc }))
        ]
      ]

  set_policy-IsTruthful :
      (ld : Lockdown F) (p : Policy) → IsTruthful api ld → IsTruthful api (set_policy api ld p)
  unfolding set_policy
  set_policy-IsTruthful ld p v =
      let ld' = record ld { policy = record p { mode = sanitize_mode p.mode } } in
      on_branches (IsTruthful api) (ld.armed && not (mode_eq ld'.policy.mode ld.policy.mode)) _ _
        (λ _. reconcile-IsTruthful ld') (λ _. record { blocks = v.blocks })

  set_allowlist-IsTruthful :
      (ld : Lockdown F) (eps : List Endpoint)
      → IsTruthful api ld
      → IsTruthful api (set_allowlist api ld eps)
  unfolding set_allowlist
  set_allowlist-IsTruthful ld eps v =
      let ld' = record ld { allow = take max_allowlist eps } in
      on_branches (IsTruthful api) (ld.armed && engaged api ld) _ _
        (λ h. record { blocks = λ _. apply_engage-stays ld' (ground arith) })
        (λ _. record { blocks = v.blocks })

  trip-IsTruthful :
      (ld : Lockdown F) (m : Mode) → IsTruthful api ld → IsTruthful api (trip api ld m)
  unfolding trip
  trip-IsTruthful ld fail_closed v =
      report-IsTruthful (engage_if_needed api ld) tripped_blocking (engage_if_needed_lem ld)
  trip-IsTruthful ld fail_backup v =
      report-IsTruthful (engage_if_needed api ld) failing_over (engage_if_needed_lem ld)
  trip-IsTruthful ld fail_open v = record { blocks = λ e. cc }
  trip-IsTruthful ld off v = v
  trip-IsTruthful ld (unknown m) v = v

  restore-IsTruthful : (ld : Lockdown F) → IsTruthful api (restore api ld)
  unfolding restore
  restore-IsTruthful ld = record { blocks = λ e. cc }

  react-IsTruthful :
      (ld : Lockdown F) (b : Bool) → IsTruthful api ld → IsTruthful api (react api ld b)
  unfolding react
  react-IsTruthful ld true v =
      on_branches (IsTruthful api) _ (restore api ld) ld (λ _. restore-IsTruthful ld) (λ _. v)
  react-IsTruthful ld false v =
      on_branches (IsTruthful api) _ _ _ (λ _. trip-IsTruthful ld ld.policy.mode v) (λ _. v)

  observe-IsTruthful :
      (ld : Lockdown F) (b : Bool) → IsTruthful api ld → IsTruthful api (observe api ld b)
  observe-IsTruthful ld true v = record { blocks = v.blocks }
  observe-IsTruthful ld false v = record { blocks = v.blocks }

  on_health-IsTruthful :
      (ld : Lockdown F) (b : Bool) → IsTruthful api ld → IsTruthful api (on_health api ld b)
  unfolding on_health
  on_health-IsTruthful ld b v =
      on_branches (IsTruthful api) _ _ _ (λ _. v)
        (λ _. react-IsTruthful (observe api ld b) b (observe-IsTruthful ld b v))

  pub step-IsTruthful :
      (ld : Lockdown F) (o : Op) → IsTruthful api ld → IsTruthful api (step api ld o)
  unfolding step
  step-IsTruthful ld (policy_op p) v = set_policy-IsTruthful ld p v
  step-IsTruthful ld (allowlist_op eps) v = set_allowlist-IsTruthful ld eps v
  step-IsTruthful ld arm_op v =
      unfold arm in
      reconcile-IsTruthful (record ld {
        armed = true;
        policy = record (ld.policy) { mode = sanitize_mode ld.policy.mode };
      })
  step-IsTruthful ld disarm_op v = unfold disarm in record { blocks = λ e. cc }
  step-IsTruthful ld (health_op b) v = on_health-IsTruthful ld b v

  run-IsTruthful' :
      (ld : Lockdown F) (os : List Op) → IsTruthful api ld → IsTruthful api (run api ld os)
  unfolding run
  run-IsTruthful' ld [] v = v
  run-IsTruthful' ld (o ∷ os) v = run-IsTruthful' (step api ld o) os (step-IsTruthful ld o v)

  -- Given a firewall that keeps its contract, after any calls on a new controller a state that
  -- claims to block (tripped_blocking, failing_over) is reported only while the firewall is
  -- engaged.
  pub run-IsTruthful :
      (policy : Option Policy) (fw : Option F) (os : List Op)
      → IsTruthful api (run api (create api policy fw) os)
  run-IsTruthful policy fw os =
      run-IsTruthful' (create api policy fw) os (unfold create in record { blocks = λ e. cc })
