-- ===== src/Scheduler/Work/Effects.antt =====
-- internal/controller/scheduler.go: what a job makes of the status, and when.
use pgbouncer_aurora_operato.Base.{
  is_empty, Answer, ok, failed, ℕ, String, ◌≡◌, ◌⊎◌, Bool, true, false, not, ◌&&◌, Option, none,
  some, List,
}
use pgbouncer_aurora_operato.Api.{PgBouncerAurora, InstanceTopologyStatus, PgBouncerAuroraStatus}
use pgbouncer_aurora_operato.Domain.{InstanceObservation, DiscoveryResult, HealthStatus}
use pgbouncer_aurora_operato.Planner.{plan}
use pgbouncer_aurora_operato.Controller.Cache.{last_discovery_trusted, topology_observations}
use pgbouncer_aurora_operato.Controller.Due.{discovery_due, monitor_due}
use pgbouncer_aurora_operato.Scheduler.Updates.{update_monitor_status}
use pgbouncer_aurora_operato.Scheduler.Watch.{matches_watch_names}
use pgbouncer_aurora_operato.Scheduler.Work.{
  Ended, skipped, get_failed, update_failed, asks_reconcile, StatusApi, ended, run_discovery_job,
  health_by_job, run_monitor_job,
}
use pgbouncer_aurora_operato.Scheduler.Work.Stored.{DiscoveryEffect, MonitorEffect}

-- A run of one of the two jobs.
pub data JobRun : Type 0 where
  discovers : Option (PgBouncerAurora → Answer DiscoveryResult) → ℕ → JobRun
  monitors :
      Option (PgBouncerAurora → List InstanceObservation → Answer (List (String × HealthStatus)))
      → ℕ
      → JobRun

module _ (hash_topology : List InstanceTopologyStatus → String)
    (role_service_name : String → String → String) {S : Type 0} (api : StatusApi S)
    (read : S → PgBouncerAurora) (watch_name : String) where
  -- A discovery that was due is stored, and then a reconcile is asked for.
  abbrev pub DiscoveryRan : (PgBouncerAurora → Answer DiscoveryResult) → ℕ → S → Ended × S → Type 0
  DiscoveryRan provider now s (ended, s') =
      (resource : PgBouncerAurora) × (api.get s ≡ ok (some resource))
      × (matches_watch_names watch_name resource.name ≡ true)
      × (discovery_due resource now ≡ true)
      × (ended ≡ asks_reconcile)
      × DiscoveryEffect resource (provider resource) now (read s).status (read s').status

  abbrev pub MonitorRan :
      (PgBouncerAurora → List InstanceObservation → Answer (List (String × HealthStatus)))
      → ℕ
      → S
      → Ended × S
      → Type 0
  MonitorRan check now s (ended, s') =
      (resource : PgBouncerAurora) × (api.get s ≡ ok (some resource))
      × (matches_watch_names watch_name resource.name ≡ true)
      × (monitor_due resource now ≡ true)
      × (last_discovery_trusted resource ≡ true)
      × (is_empty resource.status.last_known_topology ≡ false)
      × (ended ≡ asks_reconcile)
      × MonitorEffect hash_topology resource
          (check resource (topology_observations resource.status.last_known_topology)) now
          (read s).status (read s').status

  abbrev pub Ran : JobRun → S → Ended × S → Type 0
  Ran (discovers none now) s out = ⊥
  Ran (discovers (some provider) now) s out = DiscoveryRan provider now s out
  Ran (monitors none now) s out = ⊥
  Ran (monitors (some check) now) s out = MonitorRan check now s out

  -- There is no resource, or it is not watched or not due.
  abbrev pub IsIdle : (PgBouncerAurora → Bool) → S → Type 0
  IsIdle due s =
      (api.get s ≡ ok none)
      ⊎ ((resource : PgBouncerAurora) × (api.get s ≡ ok (some resource))
          × ((matches_watch_names watch_name resource.name && due resource) ≡ false))

  abbrev pub monitors_now : ℕ → PgBouncerAurora → Bool
  monitors_now now resource =
      monitor_due resource now
      && (last_discovery_trusted resource && not (is_empty resource.status.last_known_topology))

  abbrev pub HasNothing : JobRun → S → Type 0
  HasNothing (discovers none now) s = Unit
  HasNothing (discovers (some provider) now) s = IsIdle (λ resource. discovery_due resource now) s
  HasNothing (monitors none now) s = Unit
  HasNothing (monitors (some check) now) s = IsIdle (monitors_now now) s

  -- Why a job has written nothing.
  abbrev pub Stopped : JobRun → S → Ended → Type 0
  Stopped job s skipped = HasNothing job s
  Stopped job s (get_failed error) = api.get s ≡ failed error
  Stopped job s (update_failed error) =
      (change : PgBouncerAurora → PgBouncerAuroraStatus) × (api.update s change ≡ failed error)
  Stopped job s asks_reconcile = ⊥

  -- Nothing is written for a reason, or the job did what it should.
  abbrev pub Outcome : JobRun → S → Ended × S → Type 0
  Outcome job s out = (Stopped job s out.0 × (out.1 ≡ s)) ⊎ Ran job s out

  -- An update that succeeds has changed the status that was stored.
  abbrev pub IsStatusApi : Type 0
  IsStatusApi =
      (s s' : S) (change : PgBouncerAurora → PgBouncerAuroraStatus)
      → api.update s change ≡ ok s'
      → (read s').status ≡ change (read s)

  abbrev pub run_job : JobRun → S → Ended × S
  run_job (discovers provider now) s = run_discovery_job hash_topology api watch_name provider now s
  run_job (monitors check now) s =
      run_monitor_job hash_topology api watch_name role_service_name check now s

  module _ (updates : IsStatusApi) where
    -- What a monitor job writes, with the discovery that it has read and the answer of the monitor.
    abbrev change_by_monitor :
        PgBouncerAurora
        → ℕ
        → DiscoveryResult
        → Answer (List (String × HealthStatus))
        → PgBouncerAurora
        → PgBouncerAuroraStatus
    change_by_monitor resource now discovery answer =
        let given = health_by_job hash_topology api watch_name role_service_name resource answer in
        update_monitor_status hash_topology role_service_name discovery
          (plan (record {
            resource = resource;
            discovery_trusted = discovery.trusted;
            discovered = discovery.instances;
            health = given.0;
            cached_health = given.1;
            missing_instances = resource.status.missing_instances;
          }))
          given.2 now
