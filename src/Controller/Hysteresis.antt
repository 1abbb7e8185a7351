-- ===== src/Controller/Hysteresis.antt =====
-- internal/controller/reconciler.go (`instanceStatus`) and internal/planner/planner.go: what the checks
-- of one instance, round after round, make of its health. Each round plans with the status that the
-- round before it has stored.
use pgbouncer_aurora_operato.Base.{
  ltb, leb, if_true, if_false, length, All, int32_add, int32_lt, IsCount, ℕ, ◌+◌, String, ◌≡◌, refl,
  sym, ap, subst, ◌∙◌, Bool, true, false, not, ◌&&◌, ◌||◌, none, some, List, [], ◌∷◌, map, arith,
  eq_refl,
}
use pgbouncer_aurora_operato.Api.{InstanceStatus}
use pgbouncer_aurora_operato.Domain.{InstanceObservation, HealthStatus, InstancePlan}
use pgbouncer_aurora_operato.Planner.{
  plan, physical_identity_changed, instance_disabled, failure_threshold, recovery_threshold,
  apply_health, count_success, count_failure, apply_monitor_thresholds, Input, previous_for,
  initial_plan, enabled_plan, plan_for,
}

abbrev pub instance_status_of : InstancePlan → InstanceStatus
instance_status_of plan = record {
  instance_name = plan.name;
  endpoint = plan.endpoint;
  port = plan.port;
  role = plan.role;
  availability_zone = plan.availability_zone;
  dbi_resource_id = plan.dbi_resource_id;
  disabled = plan.disabled;
  healthy = plan.healthy;
  desired_replicas = plan.replicas;
  ready_replicas = plan.ready_replicas;
  consecutive_failures = plan.consecutive_failures;
  consecutive_successes = plan.consecutive_successes;
  reason = plan.reason;
}

abbrev pub instance_status : List InstancePlan → List InstanceStatus
instance_status = map instance_status_of

module _ (input : Input) (observed : InstanceObservation) where
  -- A round that checks the instance and finds a stored status under its name.
  unfoldable pub checked_status : InstanceStatus → HealthStatus → InstanceStatus
  checked_status stored check = instance_status_of (
      plan_for (record input { cached_health = false; health = (observed.name, check) ∷ [] })
        ((observed.name, stored) ∷ []) observed)

  unfoldable pub status_after : InstanceStatus → List HealthStatus → InstanceStatus
  status_after stored [] = stored
  status_after stored (check ∷ checks) = status_after (checked_status stored check) checks

-- The instance is enabled, and the status was stored for the machine that is observed.
pub record IsTracked (input : Input) (observed : InstanceObservation) (stored : InstanceStatus)
    : Type 0 where
  pub enabled : instance_disabled input.resource.spec.pgbouncer observed.name ≡ false
  pub same_machine :
      physical_identity_changed observed.dbi_resource_id stored.dbi_resource_id ≡ false

same_identity : (id : String) → physical_identity_changed id id ≡ false
unfolding physical_identity_changed
same_identity id = ground (arith, eq_refl id)

module _ (input : Input) (observed : InstanceObservation) where
  checked_plan : HealthStatus → InstancePlan
  checked_plan check = apply_health (initial_plan input observed) (some check)

  checked_status-thresholds :
      (stored : InstanceStatus) (check : HealthStatus)
      → IsTracked input observed stored
      → checked_status input observed stored check
        ≡ instance_status_of
            (apply_monitor_thresholds input.resource (checked_plan check) stored true)
  unfolding checked_status plan_for previous_for enabled_plan checked_plan
  checked_status-thresholds stored check tracked = ap instance_status_of (
      if_false _ _ tracked.enabled
      ∙ ap
          (λ o.
            enabled_plan
              (record input { cached_health = false; health = (observed.name, check) ∷ [] })
              observed (previous_for o observed))
          (if_true (some stored) none (eq_refl observed.name))
      ∙ ap
          (enabled_plan
            (record input { cached_health = false; health = (observed.name, check) ∷ [] }) observed)
          (if_false _ _ tracked.same_machine)
      ∙ ap
          (λ o.
            apply_monitor_thresholds input.resource (apply_health (initial_plan input observed) o)
              stored true)
          (if_true (some check) none (eq_refl observed.name)))

  -- The health and the counters after a check, and the identity.
  abbrev HasHealth : InstanceStatus → Bool → ℕ → ℕ → Type 0
  HasHealth stored healthy failures successes =
      (stored.healthy ≡ healthy)
      × (stored.consecutive_failures ≡ failures)
      × (stored.consecutive_successes ≡ successes)
      × (stored.dbi_resource_id ≡ observed.dbi_resource_id)

  failed_check :
      (stored : InstanceStatus) (check : HealthStatus)
      → IsTracked input observed stored
      → check.healthy ≡ false
      → HasHealth
          (checked_status input observed stored check)
          (stored.healthy
            && int32_lt
                (int32_add stored.consecutive_failures 1)
                (failure_threshold input.resource))
          (int32_add stored.consecutive_failures 1)
          0
  unfolding apply_monitor_thresholds apply_health count_failure checked_plan
  failed_check stored check tracked h =
      subst
        (λ s.
          HasHealth s
            (stored.healthy
              && int32_lt (int32_add stored.consecutive_failures 1)
                  (failure_threshold input.resource))
            (int32_add stored.consecutive_failures 1) 0)
        (sym (
          checked_status-thresholds stored check tracked
          ∙ ap instance_status_of (
              if_false
                (count_success (recovery_threshold input.resource) (checked_plan check) stored true)
                (count_failure (failure_threshold input.resource) (checked_plan check) stored) h)))
        (refl, refl, refl, refl)

  passed_check :
      (stored : InstanceStatus) (check : HealthStatus)
      → IsTracked input observed stored
      → check.healthy ≡ true
      → HasHealth
          (checked_status input observed stored check)
          (not (
            not stored.healthy
            && int32_lt
                (int32_add stored.consecutive_successes 1)
                (recovery_threshold input.resource)))
          0
          (int32_add stored.consecutive_successes 1)
  unfolding apply_monitor_thresholds apply_health count_success checked_plan
  passed_check stored check tracked h =
      subst
        (λ s.
          HasHealth s
            (not (
              not stored.healthy
              && int32_lt (int32_add stored.consecutive_successes 1)
                  (recovery_threshold input.resource)))
            0 (int32_add stored.consecutive_successes 1))
        (sym (
          checked_status-thresholds stored check tracked
          ∙ ap instance_status_of (
              if_true
                (count_success (recovery_threshold input.resource) (checked_plan check) stored true)
                (count_failure (failure_threshold input.resource) (checked_plan check) stored) h)))
        (refl, refl, refl, refl)

  checked-IsTracked :
      (stored : InstanceStatus) (check : HealthStatus) (healthy : Bool) (f s : ℕ)
      → IsTracked input observed stored
      → HasHealth (checked_status input observed stored check) healthy f s
      → IsTracked input observed (checked_status input observed stored check)
  checked-IsTracked stored check healthy f s tracked h = record {
    enabled = tracked.enabled;
    same_machine =
        subst (λ id. physical_identity_changed observed.dbi_resource_id id ≡ false) (sym h.3)
          (same_identity observed.dbi_resource_id);
  }

  failures_from :
      (stored : InstanceStatus) (check : HealthStatus) (checks : List HealthStatus)
      → IsTracked input observed stored
      → All (λ c. c.healthy ≡ false) (check ∷ checks)
      → IsCount (stored.consecutive_failures + length (check ∷ checks))
      → (status_after input observed stored (check ∷ checks)).healthy ≡ (
          stored.healthy
          && ltb
              (stored.consecutive_failures + length (check ∷ checks))
              (failure_threshold input.resource))
  unfolding status_after
  failures_from stored check [] tracked (h, rest) bound =
      (failed_check stored check tracked h).0 ∙ ground arith
  failures_from stored check (next ∷ checks) tracked (h, rest) bound =
      let now = failed_check stored check tracked h in
      let later =
        failures_from (checked_status input observed stored check) next checks
          (checked-IsTracked stored check _ _ _ tracked now) rest (omega (arith, now.1)) in
      later ∙ ground (arith, now.0, now.1)

  successes_from :
      (stored : InstanceStatus) (check : HealthStatus) (checks : List HealthStatus)
      → IsTracked input observed stored
      → All (λ c. c.healthy ≡ true) (check ∷ checks)
      → IsCount (stored.consecutive_successes + length (check ∷ checks))
      → (status_after input observed stored (check ∷ checks)).healthy ≡ (
          stored.healthy
          || leb
              (recovery_threshold input.resource)
              (stored.consecutive_successes + length (check ∷ checks)))
  unfolding status_after
  successes_from stored check [] tracked (h, rest) bound =
      (passed_check stored check tracked h).0 ∙ ground arith
  successes_from stored check (next ∷ checks) tracked (h, rest) bound =
      let now = passed_check stored check tracked h in
      let later =
        successes_from (checked_status input observed stored check) next checks
          (checked-IsTracked stored check _ _ _ tracked now) rest (omega (arith, now.2)) in
      later ∙ ground (arith, now.0, now.2)

-- An enabled instance that was healthy stays healthy through failed checks in a row just as long as the
-- failures, those counted before included, are fewer than the threshold; one that was not healthy stays
-- so. The counter does not overflow.
pub status_after-failures :
    (input : Input) (observed : InstanceObservation) (stored : InstanceStatus)
    (check : HealthStatus) (checks : List HealthStatus)
    → IsTracked input observed stored
    → All (λ c. c.healthy ≡ false) (check ∷ checks)
    → IsCount (stored.consecutive_failures + length (check ∷ checks))
    → (status_after input observed stored (check ∷ checks)).healthy ≡ (
        stored.healthy
        && ltb
            (stored.consecutive_failures + length (check ∷ checks))
            (failure_threshold input.resource))
status_after-failures = failures_from

-- An enabled instance that was not healthy is healthy again after successful checks in a row just if the
-- successes, those counted before included, reach the threshold; one that was healthy stays so. The
-- counter does not overflow.
pub status_after-successes :
    (input : Input) (observed : InstanceObservation) (stored : InstanceStatus)
    (check : HealthStatus) (checks : List HealthStatus)
    → IsTracked input observed stored
    → All (λ c. c.healthy ≡ true) (check ∷ checks)
    → IsCount (stored.consecutive_successes + length (check ∷ checks))
    → (status_after input observed stored (check ∷ checks)).healthy ≡ (
        stored.healthy
        || leb
            (recovery_threshold input.resource)
            (stored.consecutive_successes + length (check ∷ checks)))
status_after-successes = successes_from
