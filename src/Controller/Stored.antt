-- ===== src/Controller/Stored.antt =====
-- internal/controller/reconciler.go (`updateStatus`): the status after a reconcile, from the status as it is
-- read again. The hashes, the names of services and the conditions that `conditionsFor` makes of the
-- previous ones are arguments.
pub mod Agrees
use pgbouncer_aurora_operato.Base.{
  if◌then◌else◌, is_empty, int32_add, time_after, ℕ, String, Bool, false, not, ◌&&◌, ◌||◌, Option,
  none, some, List, ◌==◌,
}
use pgbouncer_aurora_operato.Api.{
  PgBouncerAurora, InstanceTopologyStatus, MembershipStatus, MissingInstanceStatus, Condition,
  PgBouncerAuroraStatus,
}
use pgbouncer_aurora_operato.Domain.{DiscoveryResult}
use pgbouncer_aurora_operato.Planner.{Output}
use pgbouncer_aurora_operato.Controller.Cache.{topology_status}
use pgbouncer_aurora_operato.Controller.Hysteresis.{instance_status}
use pgbouncer_aurora_operato.Controller.Membership.{membership_changed, is_none}
use pgbouncer_aurora_operato.Controller.Summary.{service_summary_status}

-- `resource` and the results of its reconcile.
pub record Results : Type 0 where
  pub resource : PgBouncerAurora
  pub discovery : DiscoveryResult
  pub plan : Output
  pub missing_instances : List MissingInstanceStatus
  pub discovery_ran : Bool
  pub discovery_failed : Bool
  pub monitor_ran : Bool
  pub now : ℕ

pub record Hashes : Type 0 where
  pub topology : List InstanceTopologyStatus → String
  pub missing : List MissingInstanceStatus → String
  pub membership : MembershipStatus → String

-- The stored time is later than `now`.
abbrev pub is_newer : Option ℕ → ℕ → Bool
is_newer none now = false
is_newer (some time) now = time_after time now

abbrev pub records_discovery : Results → PgBouncerAuroraStatus → Bool
records_discovery r fresh = r.discovery_ran && not (is_newer fresh.last_discovery_time r.now)

abbrev pub records_monitor : Results → PgBouncerAuroraStatus → Bool
records_monitor r fresh = r.monitor_ran && not (is_newer fresh.last_monitor_time r.now)

-- The assignments of `updateStatus`, one function for each `if`, in their order.
unfoldable pub store_discovery_time : Results → PgBouncerAuroraStatus → PgBouncerAuroraStatus
store_discovery_time r fresh =
    if records_discovery r fresh
    then record fresh {
      last_discovery_time = some r.now;
      consecutive_discovery_failures =
          if r.discovery_failed
          then int32_add r.resource.status.consecutive_discovery_failures 1
          else 0;
    }
    else fresh

unfoldable pub store_monitor_time : Results → PgBouncerAuroraStatus → PgBouncerAuroraStatus
store_monitor_time r fresh =
    if records_monitor r fresh then record fresh { last_monitor_time = some r.now } else fresh

-- `recorded` is `discoveryRan && !discoveryStatusIsNewer`, taken before the first assignment.
unfoldable pub store_topology :
    Hashes → Results → Bool → PgBouncerAuroraStatus → PgBouncerAuroraStatus
store_topology hashes r recorded fresh =
    if r.discovery.trusted && recorded
    then record fresh {
      last_known_topology = topology_status r.discovery.instances;
      missing_instances = r.missing_instances;
      topology_hash = hashes.topology (topology_status r.discovery.instances);
    }
    else if r.discovery.trusted
        && not r.discovery_ran
        && not (hashes.missing fresh.missing_instances == hashes.missing r.missing_instances)
    then record fresh { missing_instances = r.missing_instances }
    else fresh

unfoldable pub store_instances : Results → Bool → PgBouncerAuroraStatus → PgBouncerAuroraStatus
store_instances r recorded fresh =
    if not r.plan.frozen && (recorded || is_empty fresh.instances)
    then record fresh { instances = instance_status r.plan.instances }
    else fresh

abbrev pub members_changed : MembershipStatus → Output → Bool
members_changed membership plan =
    membership_changed membership.writer plan.membership.writer
    || membership_changed membership.reader plan.membership.reader

unfoldable pub store_membership : Results → PgBouncerAuroraStatus → PgBouncerAuroraStatus
store_membership r fresh =
    let changed = members_changed fresh.last_applied_membership r.plan in
    if r.plan.frozen then fresh else record fresh {
      last_applied_time =
          if changed || is_none fresh.last_applied_time
          then some r.now
          else fresh.last_applied_time;
      last_applied_membership =
          if changed
          then record { writer = r.plan.membership.writer; reader = r.plan.membership.reader }
          else fresh.last_applied_membership;
    }

module _ (hashes : Hashes) (role_service_name : String → String → String)
    (conditions_for : List Condition → List Condition) where
  unfoldable pub updated_status : Results → PgBouncerAuroraStatus → PgBouncerAuroraStatus
  updated_status r fresh =
      let recorded = records_discovery r fresh in
      let monitored = records_monitor r fresh in
      let timed = store_monitor_time r (store_discovery_time r fresh) in
      let stored = store_instances r monitored (store_topology hashes r recorded timed) in
      let applied = store_membership r stored in
      record applied {
        observed_generation = r.resource.generation;
        service_summary =
            if is_newer fresh.last_monitor_time r.now
            then fresh.service_summary
            else service_summary_status role_service_name r.resource r.plan;
        membership_hash = hashes.membership applied.last_applied_membership;
        conditions = conditions_for fresh.conditions;
      }
