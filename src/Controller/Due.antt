-- ===== src/Controller/Due.antt =====
-- internal/controller/reconciler.go: when a check, a removal or a reconcile is due.
use pgbouncer_aurora_operato.Base.{
  ltb, leb, ◌=?◌, if◌then◌else◌, is_empty, any, int32_lt, int32_pos, int64_pos, time_sub, ℕ, ◌*◌,
  Bool, true, false, not, ◌&&◌, ◌||◌, Option, none, some, List, ◌==◌,
}
use pgbouncer_aurora_operato.Api.{PgBouncerAurora, MissingInstanceStatus}

abbrev pub second : ℕ
second = 1000000000

abbrev pub default_discovery_interval : ℕ
default_discovery_interval = 3 * second

abbrev pub default_monitor_interval : ℕ
default_monitor_interval = 10 * second

abbrev pub min_check_interval : ℕ
min_check_interval = second

unfoldable pub bounded_check_interval : ℕ → ℕ → ℕ
bounded_check_interval value fallback =
    let value' = if int64_pos value then value else fallback in
    if ltb value' min_check_interval then min_check_interval else value'

unfoldable pub discovery_interval : PgBouncerAurora → ℕ
discovery_interval resource =
    bounded_check_interval resource.spec.discovery.interval default_discovery_interval

unfoldable pub monitor_interval : PgBouncerAurora → ℕ
monitor_interval resource =
    bounded_check_interval resource.spec.monitor.interval default_monitor_interval

unfoldable pub requeue_after : PgBouncerAurora → ℕ
requeue_after resource =
    if ltb (monitor_interval resource) (discovery_interval resource)
    then monitor_interval resource
    else discovery_interval resource

-- `last == nil || now.Sub(last) >= interval`.
abbrev pub elapsed : Option ℕ → ℕ → ℕ → Bool
elapsed none interval now = true
elapsed (some last) interval now = leb interval (time_sub now last)

unfoldable pub discovery_due : PgBouncerAurora → ℕ → Bool
discovery_due resource now =
    not (resource.generation =? resource.status.observed_generation)
    || elapsed resource.status.last_discovery_time (discovery_interval resource) now

unfoldable pub monitor_due : PgBouncerAurora → ℕ → Bool
monitor_due resource now =
    not (resource.generation =? resource.status.observed_generation)
    || is_empty resource.status.instances
    || elapsed resource.status.last_monitor_time (monitor_interval resource) now

unfoldable pub remove_after_missing_count : PgBouncerAurora → ℕ
remove_after_missing_count resource =
    if int32_pos resource.spec.topology_policy.remove_after_missing_count
    then resource.spec.topology_policy.remove_after_missing_count
    else 3

unfoldable pub removed_instance_retention : PgBouncerAurora → ℕ
removed_instance_retention resource =
    if int64_pos resource.spec.topology_policy.removed_instance_retention
    then resource.spec.topology_policy.removed_instance_retention
    else 3600 * second

abbrev pub retention_over : Option ℕ → ℕ → ℕ → Bool
retention_over none retention now = false
retention_over (some first) retention now = leb retention (time_sub now first)

unfoldable pub removed_instance_ready_for_delete :
    PgBouncerAurora → MissingInstanceStatus → ℕ → Bool
removed_instance_ready_for_delete resource missing now =
    not (missing.instance_name == "")
    && not (int32_lt missing.missing_count (remove_after_missing_count resource))
    && retention_over missing.first_missing_time (removed_instance_retention resource) now

unfoldable pub removed_instance_deletion_due :
    PgBouncerAurora → List MissingInstanceStatus → ℕ → Bool
removed_instance_deletion_due resource missing_instances now =
    any (λ missing. removed_instance_ready_for_delete resource missing now) missing_instances
