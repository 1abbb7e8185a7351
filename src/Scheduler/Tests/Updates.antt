-- ===== src/Scheduler/Tests/Updates.antt =====
-- The theorems about watched names, the stored status and the jobs, at concrete inputs.
use pgbouncer_aurora_operato.Base.{
  is_space, trim_space, join, add_first, split_commas, contains, Answer, ok, failed, String, ◌^^◌,
  ◌≡◌, refl, ◌⊎◌, true, false, some, List, [], ◌∷◌,
}
use pgbouncer_aurora_operato.Api.{PgBouncerAurora, InstanceTopologyStatus, PgBouncerAuroraStatus}
use pgbouncer_aurora_operato.Domain.{DiscoveryResult}
use pgbouncer_aurora_operato.Samples.{
  sample_status, sample_resource, sample_discovered, sample_input,
}
use pgbouncer_aurora_operato.Planner.{plan}
use pgbouncer_aurora_operato.Controller.Cache.{
  topology_observations, topology_status, cached_result, cached_discovery,
}
use pgbouncer_aurora_operato.Controller.Due.{
  bounded_check_interval, discovery_interval, discovery_due,
}
use pgbouncer_aurora_operato.Controller.Stored.{Hashes}
use pgbouncer_aurora_operato.Scheduler.Updates.{update_discovery_status, update_monitor_status}
use pgbouncer_aurora_operato.Scheduler.Updates.Cached.{
  stored, cached_discovery-stored, update_monitor_status-same_topology,
}
use pgbouncer_aurora_operato.Scheduler.Updates.Order.{
  Follows, by_discovery_job, by_monitor_job, done, then_one, Writes-Follows,
}
use pgbouncer_aurora_operato.Scheduler.Watch.{matches_watch_names}
use pgbouncer_aurora_operato.Scheduler.Watch.Names.{matches_watch_names-join}
use pgbouncer_aurora_operato.Scheduler.Work.{
  asks_reconcile, StatusApi, discover_read, run_discovery_job,
}
use pgbouncer_aurora_operato.Scheduler.Work.Effects.{JobRun, discovers, run_job}

matches_watch_names-join_example :
    matches_watch_names (join ("pool" ∷ "other" ∷ []) ",") "pool"
    ≡ contains ("pool" ∷ "other" ∷ []) "pool"
unfolding is_space
matches_watch_names-join_example =
    matches_watch_names-join "pool" ("other" ∷ []) "pool" (refl, (refl, tt))

watched_with_spaces : matches_watch_names " other , pool" "pool" ≡ true
unfolding matches_watch_names trim_space split_commas add_first
watched_with_spaces = refl

abbrev found : DiscoveryResult
found = record { trusted = true; instances = sample_discovered; reason = "3 rows" }

abbrev sample_hash : List InstanceTopologyStatus → String
sample_hash topology = "hash"

cached_discovery-stored_example :
    ((cached_discovery (stored sample_hash sample_resource found [] false 5000000000)).trusted
      ≡ true)
    × (cached_discovery (stored sample_hash sample_resource found [] false 5000000000)).instances
      ≡ sample_discovered
cached_discovery-stored_example =
    cached_discovery-stored sample_hash sample_resource found [] false 5000000000 refl refl

abbrev hashes : Hashes
hashes = record {
  topology = sample_hash;
  missing = λ missing. "missing";
  membership = λ membership. "membership";
}

abbrev service_name : String → String → String
service_name pool name = pool ^^ "-" ^^ name

abbrev discovered_status : PgBouncerAuroraStatus
discovered_status = update_discovery_status sample_hash found [] false 5000000000 sample_status

abbrev discovered_resource : PgBouncerAurora
discovered_resource = record sample_resource { status = discovered_status }

abbrev monitored_status : PgBouncerAuroraStatus
monitored_status =
    update_monitor_status sample_hash service_name found (plan sample_input) "" 6000000000
      discovered_resource

Writes-Follows_example : Follows sample_hash sample_status monitored_status
Writes-Follows_example = Writes-Follows hashes service_name (
    then_one (then_one done (by_discovery_job found [] false 5000000000 sample_status))
      (by_monitor_job found (plan sample_input) "" 6000000000 discovered_resource))

-- The stored topology was discovered again, and its hash is stored.
abbrev hashed_resource : PgBouncerAurora
hashed_resource = record sample_resource {
  status = record sample_status { topology_hash = "hash" };
}

abbrev found_again : DiscoveryResult
found_again = cached_result hashed_resource ""

update_monitor_status-same_topology_example :
    (update_monitor_status sample_hash service_name found_again
        (plan sample_input)
        ""
        6000000000
        hashed_resource
      ≡ hashed_resource.status)
    ⊎ (sample_status.last_known_topology
        ≡ topology_status (topology_observations sample_status.last_known_topology))
unfolding cached_result
update_monitor_status-same_topology_example =
    update_monitor_status-same_topology sample_hash service_name found_again (plan sample_input) ""
      6000000000 hashed_resource (λ same. refl) refl refl refl

-- A server that keeps the resource.
abbrev sample_api : StatusApi PgBouncerAurora
sample_api = record {
  get = λ s. ok (some s);
  update = λ s change. ok (record s { status = change s });
}

kept_status : Answer PgBouncerAurora → PgBouncerAuroraStatus
kept_status (ok s) = s.status
kept_status (failed error) = sample_status

abbrev sample_job : JobRun
sample_job = discovers (some (λ resource. ok found)) 7000000000

sample_job_runs :
    (run_job sample_hash service_name sample_api (λ s. s) "*" sample_job sample_resource).0
    ≡ asks_reconcile
unfolding run_discovery_job discover_read matches_watch_names trim_space discovery_due
    discovery_interval bounded_check_interval
sample_job_runs = refl
