-- ===== src/Lockdown/Hysteresis.antt =====
-- src/core/pmx_lockdown.c: the counters of failures and the moment of the trip.
use proxi_might.Prelude.{
  ℕ, ◌+◌, ◌<◌, ◌≤◌, ◌≡◌, refl, ap, ◌∙◌, Bool, true, false, ◌&&◌, ◌||◌, not, Option, none, some,
  List, [], ◌∷◌, ◌++◌, if◌then◌else◌, arith,
}
use proxi_might.Prelude.Decimal.{pos, le_int}
use proxi_might.Status.{Status, ok}
use proxi_might.Lockdown.{
  Mode, Firewall, State, armed_healthy, tripped_blocking, failing_over, Lockdown, fail_closed,
  fail_backup, engaged, engage_if_needed, report, trip, restore, observe, react, on_health, is_off,
  mode_blocks, is_healthy_state,
}
use proxi_might.Lockdown.Blocking.{blocking-not_off}

-- The failures in a row at the end of the observations, `fails` of them before the first.
abbrev pub trailing_failures : ℕ → List Bool → ℕ
trailing_failures fails [] = fails
trailing_failures fails (true ∷ os) = trailing_failures 0 os
trailing_failures fails (false ∷ os) = trailing_failures (fails + 1) os

-- No failures in a row reach the threshold.
abbrev pub StaysBelow : ℕ → ℕ → List Bool → Type 0
StaysBelow threshold fails [] = Unit
StaysBelow threshold fails (true ∷ os) = StaysBelow threshold 0 os
StaysBelow threshold fails (false ∷ os) =
    (fails + 1 < threshold) × StaysBelow threshold (fails + 1) os

module _ {F : Type 0} (api : Firewall F) where
  -- One call of `pmx_lockdown_on_health` for each observation.
  unfoldable pub observations : Lockdown F → List Bool → Lockdown F
  observations ld [] = ld
  observations ld (b ∷ os) = observations (on_health api ld b) os

  -- The controller watches a path that is healthy, in the mode `m` with the threshold.
  pub record IsWatching (m : Mode) (threshold fails : ℕ) (fw : Option F) (ld : Lockdown F)
      : Type 0 where
    pub is_armed : ld.armed ≡ true
    pub mode : ld.policy.mode ≡ m
    pub trip_at : ld.policy.failures_before_trip ≡ pos threshold
    pub healthy : ld.state ≡ armed_healthy
    pub failures : ld.fails ≡ fails
    pub firewall : ld.fw ≡ fw

  module _ (m : Mode) (threshold : ℕ) (fw : Option F) (on : is_off m ≡ false) where
    pub on_health-react :
        {fails : ℕ} (ld : Lockdown F) (b : Bool)
        → IsWatching m threshold fails fw ld
        → on_health api ld b ≡ react api (observe api ld b) b
    unfolding on_health
    on_health-react ld b v =
        let a : is_off ld.policy.mode ≡ false = ap is_off v.mode ∙ on in
        let c : (not ld.armed || is_off ld.policy.mode) ≡ false = ground arith in
        ap (λ (x : Bool). if x then ld else react api (observe api ld b) b) c

    pub react-healthy :
        {fails : ℕ} (ld : Lockdown F)
        → IsWatching m threshold fails fw ld
        → react api (observe api ld true) true ≡ observe api ld true
    unfolding react
    react-healthy ld v =
        let c : (not (is_healthy_state ld.state)
              && le_int ld.policy.successes_before_restore (pos (ld.succ + 1)))
            ≡ false =
          ground arith in
        ap (λ (x : Bool). if x then restore api (observe api ld true) else observe api ld true) c

    pub react-below :
        {fails : ℕ} (ld : Lockdown F)
        → IsWatching m threshold fails fw ld
        → fails + 1 < threshold
        → react api (observe api ld false) false ≡ observe api ld false
    unfolding react
    react-below ld v h =
        let c : (is_healthy_state ld.state
              && le_int ld.policy.failures_before_trip (pos (ld.fails + 1)))
            ≡ false =
          ground (arith, v.trip_at, v.failures) in
        ap
          (λ (x : Bool).
            if x then trip api (observe api ld false) ld.policy.mode else observe api ld false)
          c

    -- An observation below the threshold changes nothing but the counters.
    on_health-IsWatching :
        {fails : ℕ} (ld : Lockdown F) (b : Bool)
        → IsWatching m threshold fails fw ld
        → StaysBelow threshold fails (b ∷ [])
        → IsWatching m threshold (trailing_failures fails (b ∷ [])) fw (on_health api ld b)
    on_health-IsWatching ld true v h = rw (on_health-react ld true v ∙ react-healthy ld v) (record {
      is_armed = v.is_armed;
      mode = v.mode;
      trip_at = v.trip_at;
      healthy = v.healthy;
      failures = refl;
      firewall = v.firewall;
    })
    on_health-IsWatching ld false v h =
        rw (on_health-react ld false v ∙ react-below ld v h.0) (record {
          is_armed = v.is_armed;
          mode = v.mode;
          trip_at = v.trip_at;
          healthy = v.healthy;
          failures = ap (λ (k : ℕ). k + 1) v.failures;
          firewall = v.firewall;
        })

    -- On an armed kill switch whose mode is not off and whose path is healthy, observations in
    -- which no failures in a row reach the threshold change neither state, policy mode, threshold
    -- nor firewall, and the counter is the number of failures at their end.
    pub observations-IsWatching :
        (fails : ℕ) (ld : Lockdown F) (os : List Bool)
        → IsWatching m threshold fails fw ld
        → StaysBelow threshold fails os
        → IsWatching m threshold (trailing_failures fails os) fw (observations ld os)
    unfolding observations
    observations-IsWatching fails ld [] v h = v
    observations-IsWatching fails ld (true ∷ os) v h =
        observations-IsWatching 0 (on_health api ld true) os (on_health-IsWatching ld true v tt) h
    observations-IsWatching fails ld (false ∷ os) v (h, hs) =
        observations-IsWatching (fails + 1) (on_health api ld false) os
          (on_health-IsWatching ld false v (h, tt)) hs

    pub react-trip :
        {fails : ℕ} (ld : Lockdown F)
        → IsWatching m threshold fails fw ld
        → threshold ≤ fails + 1
        → react api (observe api ld false) false ≡ trip api (observe api ld false) m
    unfolding react
    react-trip ld v h =
        let c : (is_healthy_state ld.state
              && le_int ld.policy.failures_before_trip (pos (ld.fails + 1)))
            ≡ true =
          ground (arith, v.trip_at, v.failures) in
        ap
          (λ (x : Bool).
            if x then trip api (observe api ld false) ld.policy.mode else observe api ld false)
          c
        ∙ ap (trip api (observe api ld false)) v.mode

-- The state in which a blocking mode trips.
abbrev pub tripped : Mode → State
tripped fail_backup = failing_over
tripped _ = tripped_blocking

module _ {F : Type 0} (api : Firewall F) where
  reengage : (ld : Lockdown F) → engaged api ld ≡ true → engage_if_needed api ld ≡ (ld, ok)
  unfolding engage_if_needed
  reengage ld h = rw h

  observations-append :
      (ld : Lockdown F) (os : List Bool)
      → (observations api ld (os ++ false ∷ [])).state
        ≡ (on_health api (observations api ld os) false).state
  unfolding observations
  observations-append ld [] = refl
  observations-append ld (b ∷ os) = observations-append (on_health api ld b) os

  trip-engaged :
      (ld : Lockdown F) (m : Mode)
      → mode_blocks m ≡ true
      → engaged api ld ≡ true
      → (trip api ld m).state ≡ tripped m
  unfolding trip mode_blocks engage_if_needed
  trip-engaged ld fail_closed h e =
      ap (λ (r : Lockdown F × Status). (report api r tripped_blocking).0.state) (reengage ld e)
  trip-engaged ld fail_backup h e =
      ap (λ (r : Lockdown F × Status). (report api r failing_over).0.state) (reengage ld e)
  trip-engaged ld _ h e = cc

  -- In a blocking mode with the firewall engaged, a kill switch on a healthy path stays healthy
  -- while the failures in a row are below the threshold, and trips at the failure that reaches
  -- it.
  pub observations_trip :
      (m : Mode) (threshold : ℕ) (f : F) (fails : ℕ) (ld : Lockdown F) (os : List Bool)
      → mode_blocks m ≡ true
      → api.is_engaged f ≡ true
      → IsWatching api m threshold fails (some f) ld
      → StaysBelow threshold fails os
      → threshold ≤ trailing_failures fails os + 1
      → ((observations api ld os).state ≡ armed_healthy)
        × ((observations api ld (os ++ false ∷ [])).state ≡ tripped m)
  observations_trip m threshold f fails ld os b e v below at =
      let on = blocking-not_off m b in
      let w = observations-IsWatching api m threshold (some f) on fails ld os v below in
      let after = observations api ld os in
      let now : on_health api after false ≡ trip api (observe api after false) m =
        on_health-react api m threshold (some f) on after false w
        ∙ react-trip api m threshold (some f) on after w at in
      let held : engaged api (observe api after false) ≡ true =
        ap (λ (o : Option F). elim o [ none ↦ false | some g ↦ api.is_engaged g ]) w.firewall ∙ e in
      (
        w.healthy,
        observations-append ld os
            ∙ ap (λ (x : Lockdown F). x.state) now
            ∙ trip-engaged (observe api after false) m b held,
      )
