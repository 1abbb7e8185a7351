-- ===== src/Planner/Health.antt =====
-- internal/planner/planner.go: how a health check, or the stored health, becomes the health of a
-- plan.
use pgbouncer_aurora_operato.Base.{
  ℕ, String, ◌^^◌, Option, none, some, Bool, not, ◌&&◌, ◌==◌, int32_add, int32_lt, sprint_int32,
  if◌then◌else◌,
}
use pgbouncer_aurora_operato.Api.{PgBouncerAurora, InstanceStatus}
use pgbouncer_aurora_operato.Domain.{InstancePlan, HealthStatus}
use pgbouncer_aurora_operato.Planner.Select.{default_int32}

abbrev pub failure_threshold : PgBouncerAurora → ℕ
failure_threshold resource = default_int32 resource.spec.monitor.failure_threshold 3

abbrev pub recovery_threshold : PgBouncerAurora → ℕ
recovery_threshold resource = default_int32 resource.spec.monitor.recovery_threshold 2

-- `fmt.Sprintf("recovering %d/%d: %s", …)` and `"preserved until failureThreshold %d/%d: %s"`.
unfoldable pub progress : String → ℕ → ℕ → String → String
progress what count threshold reason =
    what ^^ " " ^^ sprint_int32 count ^^ "/" ^^ sprint_int32 threshold ^^ ": " ^^ reason

unfoldable pub apply_cached_health : InstancePlan → InstanceStatus → InstancePlan
apply_cached_health plan previous = if previous.instance_name == "" then plan else record plan {
  healthy = previous.healthy;
  reason = previous.reason;
  consecutive_failures = previous.consecutive_failures;
  consecutive_successes = previous.consecutive_successes;
  ready_replicas = previous.ready_replicas;
}

-- `if health, ok := input.Health[observed.Name]; ok { … }`.
unfoldable pub apply_health : InstancePlan → Option HealthStatus → InstancePlan
apply_health plan none = plan
apply_health plan (some health) = record plan {
  healthy = health.healthy;
  reason = if health.healthy && health.reason == "" then "healthy" else health.reason;
  ready_replicas = health.ready_replicas;
}

-- The branch of `applyMonitorThresholds` for a check that succeeded.
unfoldable pub count_success : ℕ → InstancePlan → InstanceStatus → Bool → InstancePlan
count_success threshold plan previous had_previous =
    let successes = int32_add previous.consecutive_successes 1 in
    let recovering = had_previous && not previous.healthy && int32_lt successes threshold in
    record plan {
      healthy = not recovering;
      reason =
          if recovering then progress "recovering" successes threshold plan.reason else plan.reason;
      consecutive_failures = 0;
      consecutive_successes = successes;
    }

-- The branch for a check that failed.
unfoldable pub count_failure : ℕ → InstancePlan → InstanceStatus → InstancePlan
count_failure threshold plan previous =
    let failures = int32_add previous.consecutive_failures 1 in
    let preserved = previous.healthy && int32_lt failures threshold in
    record plan {
      healthy = preserved;
      reason =
          if preserved
          then progress "preserved until failureThreshold" failures threshold plan.reason
          else plan.reason;
      consecutive_failures = failures;
      consecutive_successes = 0;
    }

unfoldable pub apply_monitor_thresholds :
    PgBouncerAurora → InstancePlan → InstanceStatus → Bool → InstancePlan
unfolding count_success count_failure
apply_monitor_thresholds resource plan previous had_previous =
    if plan.healthy
    then count_success (recovery_threshold resource) plan previous had_previous
    else count_failure (failure_threshold resource) plan previous
