-- ===== src/Scheduler/Updates.antt =====
-- internal/controller/scheduler.go: the status that a job writes, from the status as it is read again. The
-- hash is an argument.
pub mod Order
pub mod Cached
use pgbouncer_aurora_operato.Base.{
  if◌then◌else◌, int32_add, ℕ, String, Bool, not, ◌&&◌, some, List, [], ◌∷◌, ◌==◌,
}
use pgbouncer_aurora_operato.Api.{
  PgBouncerAurora, InstanceTopologyStatus, MissingInstanceStatus, Condition, condition_true,
  condition_false, PgBouncerAuroraStatus,
}
use pgbouncer_aurora_operato.Domain.{DiscoveryResult}
use pgbouncer_aurora_operato.Planner.{plan, Output}
use pgbouncer_aurora_operato.Controller.Cache.{topology_status}
use pgbouncer_aurora_operato.Controller.Conditions.{condition_with_transition}
use pgbouncer_aurora_operato.Controller.Hysteresis.{instance_status}
use pgbouncer_aurora_operato.Controller.Summary.{service_summary_status}
use pgbouncer_aurora_operato.Controller.Stored.{is_newer}
use pgbouncer_aurora_operato.Controller.Reported.{conditions_for}

-- The conditions after a discovery: the one of discovery is replaced where it stands first, or appended.
abbrev pub discovery_reason : DiscoveryResult → Bool → String
discovery_reason discovery discovery_failed =
    if discovery_failed && not discovery.trusted
    then "DiscoveryFailed"
    else if discovery.trusted
    then "DiscoveryTrusted"
    else "DiscoveryUntrusted"

abbrev pub discovery_status : DiscoveryResult → String
discovery_status discovery = if discovery.trusted then condition_true else condition_false

unfoldable pub replace_or_append : Condition → List Condition → List Condition
replace_or_append condition [] = condition ∷ []
replace_or_append condition (old ∷ rest) =
    let later = replace_or_append condition rest in
    if old.type == condition.type then condition ∷ rest else old ∷ later

unfoldable pub discovery_only_conditions :
    List Condition → DiscoveryResult → Bool → ℕ → List Condition
discovery_only_conditions previous discovery discovery_failed now =
    replace_or_append
      (condition_with_transition previous "DiscoveryTrusted" (discovery_status discovery)
        (discovery_reason discovery discovery_failed) discovery.reason now)
      previous

module _ (hash_topology : List InstanceTopologyStatus → String) where
  -- `if discovery.Trusted`.
  abbrev pub with_topology :
      DiscoveryResult → List MissingInstanceStatus → PgBouncerAuroraStatus → PgBouncerAuroraStatus
  with_topology discovery missing fresh =
      if discovery.trusted
      then record fresh {
        last_known_topology = topology_status discovery.instances;
        missing_instances = missing;
        topology_hash = hash_topology (topology_status discovery.instances);
      }
      else fresh

  -- `updateDiscoveryStatus`: nothing is written if a later discovery has been.
  unfoldable pub update_discovery_status :
      DiscoveryResult
      → List MissingInstanceStatus
      → Bool
      → ℕ
      → PgBouncerAuroraStatus
      → PgBouncerAuroraStatus
  update_discovery_status discovery missing discovery_failed now fresh =
      let stored = with_topology discovery missing fresh in
      if is_newer fresh.last_discovery_time now then fresh else record stored {
        last_discovery_time = some now;
        consecutive_discovery_failures =
            if discovery_failed then int32_add fresh.consecutive_discovery_failures 1 else 0;
        conditions = discovery_only_conditions fresh.conditions discovery discovery_failed now;
      }

  -- The health was monitored on another topology than the stored one.
  abbrev pub is_stale : DiscoveryResult → PgBouncerAuroraStatus → Bool
  is_stale discovery fresh =
      let monitored = hash_topology (topology_status discovery.instances) in
      not (fresh.topology_hash == "")
      && not (monitored == "")
      && not (fresh.topology_hash == monitored)

  module _ (role_service_name : String → String → String) where
    -- `updateMonitorStatus`, with the resource as it is read again.
    unfoldable pub update_monitor_status :
        DiscoveryResult → Output → String → ℕ → PgBouncerAurora → PgBouncerAuroraStatus
    update_monitor_status discovery plan monitor_err now fresh =
        let status = fresh.status in
        if is_newer status.last_monitor_time now
        then status
        else if is_stale discovery status
        then status
        else record status {
          last_monitor_time = some now;
          instances = instance_status plan.instances;
          service_summary = service_summary_status role_service_name fresh plan;
          conditions = conditions_for fresh status.conditions discovery plan monitor_err now;
        }
