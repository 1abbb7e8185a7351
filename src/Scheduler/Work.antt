-- ===== src/Scheduler/Work.antt =====
-- internal/controller/scheduler.go: the two jobs, from the read of the resource to the request of a
-- reconcile. The API server, the discovery provider and the health monitor are arguments; log lines are
-- left out.
pub mod Stored
pub mod Effects
use pgbouncer_aurora_operato.Base.{
  if◌then◌else◌, Answer, ok, failed, ℕ, String, ◌^^◌, Bool, true, false, not, ◌||◌, Option, none,
  some, List, [],
}
use pgbouncer_aurora_operato.Api.{PgBouncerAurora, InstanceTopologyStatus, PgBouncerAuroraStatus}
use pgbouncer_aurora_operato.Domain.{InstanceObservation, DiscoveryResult, HealthStatus}
use pgbouncer_aurora_operato.Planner.{plan}
use pgbouncer_aurora_operato.Controller.Cache.{
  discovery_after_failure_threshold, cached_discovery, health_from_status,
}
use pgbouncer_aurora_operato.Controller.Due.{discovery_due, monitor_due}
use pgbouncer_aurora_operato.Controller.Missing.{missing_instances_for}
use pgbouncer_aurora_operato.Scheduler.Updates.{update_discovery_status, update_monitor_status}
use pgbouncer_aurora_operato.Scheduler.Watch.{matches_watch_names}

-- How a job ended.
pub data Ended : Type 0 where
  skipped : Ended
  get_failed : String → Ended
  update_failed : String → Ended
  asks_reconcile : Ended

-- The API server for one resource. `update` stands for `RetryOnConflict` around a read, the change of the
-- status that was read, and the update of the status.
pub record StatusApi (S : Type 0) : Type 0 where
  pub get : S → Answer (Option PgBouncerAurora)
  pub update : S → (PgBouncerAurora → PgBouncerAuroraStatus) → Answer S

-- The end of a job that has written, or failed to.
abbrev pub ended {ℓ} : {S : Type ℓ} → S → Answer S → Ended × S
ended s (ok s') = (asks_reconcile, s')
ended s (failed error) = (update_failed error, s)

module _ (hash_topology : List InstanceTopologyStatus → String) {S : Type 0} (api : StatusApi S)
    (watch_name : String) where
  -- The discovery and whether it failed.
  abbrev pub discovered_by_job : PgBouncerAurora → Answer DiscoveryResult → DiscoveryResult × Bool
  discovered_by_job resource (ok discovery) =
      if discovery.trusted
      then (discovery, false)
      else (discovery_after_failure_threshold resource discovery, true)
  discovered_by_job resource (failed error) =
      (record { trusted = false; instances = []; reason = "discovery errored: " ^^ error }, true)

  abbrev pub store_discovery : PgBouncerAurora → DiscoveryResult × Bool → ℕ → S → Ended × S
  store_discovery resource (discovery, discovery_failed) now s =
      let missing = missing_instances_for resource discovery true now in
      ended s (
        api.update s λ fresh.
          update_discovery_status hash_topology discovery missing discovery_failed now fresh.status)

  unfoldable pub discover_read :
      (PgBouncerAurora → Answer DiscoveryResult)
      → ℕ
      → S
      → Answer (Option PgBouncerAurora)
      → Ended × S
  discover_read provider now s (failed error) = (get_failed error, s)
  discover_read provider now s (ok none) = (skipped, s)
  discover_read provider now s (ok (some resource)) =
      let done = store_discovery resource (discovered_by_job resource (provider resource)) now s in
      if not (matches_watch_names watch_name resource.name) || not (discovery_due resource now)
      then (skipped, s)
      else done

  -- Without a provider the job is skipped.
  unfoldable pub run_discovery_job :
      Option (PgBouncerAurora → Answer DiscoveryResult) → ℕ → S → Ended × S
  run_discovery_job none now s = (skipped, s)
  run_discovery_job (some provider) now s = discover_read provider now s (api.get s)

  module _ (role_service_name : String → String → String) where
    -- The health, whether it is the stored one, and the error of the monitor.
    abbrev pub health_by_job :
        PgBouncerAurora
        → Answer (List (String × HealthStatus))
        → List (String × HealthStatus) × Bool × String
    health_by_job resource (ok health) = (health, false, "")
    health_by_job resource (failed error) =
        (health_from_status resource.status.instances, true, error)

    abbrev pub store_health :
        PgBouncerAurora
        → DiscoveryResult
        → List (String × HealthStatus) × Bool × String
        → ℕ
        → S
        → Ended × S
    store_health resource discovery (health, cached, monitor_err) now s =
        let planned = plan (record {
          resource = resource;
          discovery_trusted = discovery.trusted;
          discovered = discovery.instances;
          health = health;
          cached_health = cached;
          missing_instances = resource.status.missing_instances;
        }) in
        ended s (
          api.update s (
            update_monitor_status hash_topology role_service_name discovery planned monitor_err
              now))

    unfoldable pub monitor_read :
        (PgBouncerAurora → List InstanceObservation → Answer (List (String × HealthStatus)))
        → ℕ
        → S
        → Answer (Option PgBouncerAurora)
        → Ended × S
    monitor_read check now s (failed error) = (get_failed error, s)
    monitor_read check now s (ok none) = (skipped, s)
    monitor_read check now s (ok (some resource)) =
        let discovery = cached_discovery resource in
        let done =
          store_health resource discovery
            (health_by_job resource (check resource discovery.instances)) now s in
        if not (matches_watch_names watch_name resource.name) || not (monitor_due resource now)
        then (skipped, s)
        else if not discovery.trusted
        then (skipped, s)
        else done

    unfoldable pub run_monitor_job :
        Option (PgBouncerAurora → List InstanceObservation → Answer (List (String × HealthStatus)))
        → ℕ
        → S
        → Ended × S
    run_monitor_job none now s = (skipped, s)
    run_monitor_job (some check) now s = monitor_read check now s (api.get s)
