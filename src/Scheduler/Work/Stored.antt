-- ===== src/Scheduler/Work/Stored.antt =====
-- internal/controller/scheduler.go: what the two jobs store.
use pgbouncer_aurora_operato.Base.{
  if◌then◌else◌, Bool-cases, if_cases, if_true, if_false, is_empty, int32_add, Answer, ok, failed,
  ℕ, String, ◌≡◌, refl, sym, ap, subst, ◌∙◌, ◌⊎◌, inl, inr, Bool, true, false, not, ◌&&◌, ◌||◌,
  some, List, [], ◌∷◌, arith, ◌==◌,
}
use pgbouncer_aurora_operato.Api.{
  PgBouncerAurora, InstanceTopologyStatus, MissingInstanceStatus, PgBouncerAuroraStatus,
}
use pgbouncer_aurora_operato.Domain.{DiscoveryResult, HealthStatus, InstancePlan}
use pgbouncer_aurora_operato.Planner.{plan, Input, Output}
use pgbouncer_aurora_operato.Controller.Cache.{
  last_discovery_trusted, last_discovery_message, topology_observations, topology_status,
  cache_unusable, cached_result, discovery_after_failure_threshold, cached_discovery,
  health_from_status,
}
use pgbouncer_aurora_operato.Controller.Missing.{missing_instances_for}
use pgbouncer_aurora_operato.Controller.Stored.{is_newer}
use pgbouncer_aurora_operato.Controller.Hysteresis.{instance_status}
use pgbouncer_aurora_operato.Scheduler.Updates.{
  discovery_only_conditions, with_topology, update_discovery_status, is_stale,
  update_monitor_status,
}
use pgbouncer_aurora_operato.Scheduler.Work.{StatusApi, discovered_by_job}

-- The two statuses differ at most in what discovery stores, or at most in what monitoring stores.
pub record KeepsHealth (before after : PgBouncerAuroraStatus) : Type 0 where
  pub monitor_time : after.last_monitor_time ≡ before.last_monitor_time
  pub instances : after.instances ≡ before.instances
  pub applied : after.last_applied_membership ≡ before.last_applied_membership

pub record KeepsTopology (before after : PgBouncerAuroraStatus) : Type 0 where
  pub discovery_time : after.last_discovery_time ≡ before.last_discovery_time
  pub failures : after.consecutive_discovery_failures ≡ before.consecutive_discovery_failures
  pub topology : after.last_known_topology ≡ before.last_known_topology
  pub missing : after.missing_instances ≡ before.missing_instances
  pub applied : after.last_applied_membership ≡ before.last_applied_membership

-- The failure is counted, and the topology is the one stored, or the one that the job had read.
abbrev pub CountsFailure : PgBouncerAurora → PgBouncerAuroraStatus → PgBouncerAuroraStatus → Type 0
CountsFailure resource before after =
    (after.consecutive_discovery_failures ≡ int32_add before.consecutive_discovery_failures 1)
    × ((after.last_known_topology ≡ before.last_known_topology)
        ⊎ (after.last_known_topology ≡ resource.status.last_known_topology))

-- What is stored of an answer of the provider.
abbrev pub Stores :
    PgBouncerAurora
    → Answer DiscoveryResult
    → ℕ
    → PgBouncerAuroraStatus
    → PgBouncerAuroraStatus
    → Type 0
Stores resource (failed error) now before after = CountsFailure resource before after
Stores resource (ok discovery) now before after =
    ((discovery.trusted ≡ true)
      × (after.consecutive_discovery_failures ≡ 0)
      × (after.last_known_topology ≡ topology_status discovery.instances)
      × (after.missing_instances ≡ missing_instances_for resource discovery true now))
    ⊎ ((discovery.trusted ≡ false) × CountsFailure resource before after)

-- A discovery is stored unless a later one is.
pub data DiscoveryEffect (resource : PgBouncerAurora) (answer : Answer DiscoveryResult) (now : ℕ)
    (before after : PgBouncerAuroraStatus) : Type 0 where
  later_discovery :
      is_newer before.last_discovery_time now ≡ true
      → after ≡ before
      → DiscoveryEffect resource answer now before after
  stored_discovery :
      is_newer before.last_discovery_time now ≡ false
      → after.last_discovery_time ≡ some now
      → KeepsHealth before after
      → Stores resource answer now before after
      → DiscoveryEffect resource answer now before after

with_topology-trusted :
    (hash_topology : List InstanceTopologyStatus → String) (discovery : DiscoveryResult)
    (missing : List MissingInstanceStatus) (before : PgBouncerAuroraStatus)
    → discovery.trusted ≡ true
    → ((with_topology hash_topology discovery missing before).last_known_topology
        ≡ topology_status discovery.instances)
      × ((with_topology hash_topology discovery missing before).missing_instances ≡ missing)
with_topology-trusted hash_topology discovery missing before h = (
  ap (λ t. t.last_known_topology) (if_true _ before h),
  ap (λ t. t.missing_instances) (if_true _ before h),
)

with_topology-KeepsHealth :
    (hash_topology : List InstanceTopologyStatus → String) (discovery : DiscoveryResult)
    (missing : List MissingInstanceStatus) (before : PgBouncerAuroraStatus)
    → KeepsHealth before (with_topology hash_topology discovery missing before)
with_topology-KeepsHealth hash_topology discovery missing before =
    if_cases (KeepsHealth before) discovery.trusted _ _
      (λ _. record { monitor_time = refl; instances = refl; applied = refl })
      (λ _. record { monitor_time = refl; instances = refl; applied = refl })

with_topology-untrusted :
    (hash_topology : List InstanceTopologyStatus → String) (discovery : DiscoveryResult)
    (missing : List MissingInstanceStatus) (before : PgBouncerAuroraStatus)
    → discovery.trusted ≡ false
    → (with_topology hash_topology discovery missing before).last_known_topology
      ≡ before.last_known_topology
with_topology-untrusted hash_topology discovery missing before h =
    ap (λ t. t.last_known_topology) (if_false _ before h)

same_topology :
    (topology : List InstanceTopologyStatus)
    → topology_status (topology_observations topology) ≡ topology
same_topology [] = refl
same_topology (status ∷ topology) = ap (λ l. status ∷ l) (same_topology topology)

-- What stands in for a discovery that failed is not trusted, or is what was read.
fallback_topology :
    (hash_topology : List InstanceTopologyStatus → String) (resource : PgBouncerAurora)
    (discovery : DiscoveryResult) (missing : DiscoveryResult → List MissingInstanceStatus)
    (before : PgBouncerAuroraStatus)
    → discovery.trusted ≡ false
    → (let used = discovery_after_failure_threshold resource discovery in
        let after = with_topology hash_topology used (missing used) before in
        (after.last_known_topology ≡ before.last_known_topology)
        ⊎ (after.last_known_topology ≡ resource.status.last_known_topology))
unfolding discovery_after_failure_threshold cached_result
fallback_topology hash_topology resource discovery missing before h =
    if_cases
      (λ (used : DiscoveryResult).
        let after = with_topology hash_topology used (missing used) before in
        (after.last_known_topology ≡ before.last_known_topology)
        ⊎ (after.last_known_topology ≡ resource.status.last_known_topology))
      (cache_unusable resource) _ _
      (λ _. inl (with_topology-untrusted hash_topology discovery (missing discovery) before h))
      (λ _. inr (same_topology resource.status.last_known_topology))

module _ (hash_topology : List InstanceTopologyStatus → String) {S : Type 0} (api : StatusApi S)
    (watch_name : String) (resource : PgBouncerAurora) (now : ℕ)
    (before : PgBouncerAuroraStatus) where
  -- What `update_discovery_status` stores, if it does.
  abbrev written : DiscoveryResult × Bool → PgBouncerAuroraStatus
  written found =
      let stored =
        with_topology hash_topology found.0 (missing_instances_for resource found.0 true now)
          before in
      record stored {
        last_discovery_time = some now;
        consecutive_discovery_failures =
            if found.1 then int32_add before.consecutive_discovery_failures 1 else 0;
        conditions = discovery_only_conditions before.conditions found.0 found.1 now;
      }

  written-Stores :
      (answer : Answer DiscoveryResult)
      → Stores resource answer now before
          (written (discovered_by_job hash_topology api watch_name resource answer))
  written-Stores (failed error) = (refl, inl refl)
  written-Stores (ok discovery) =
      if_cases (λ found. Stores resource (ok discovery) now before (written found))
        discovery.trusted _ _
        (λ trusted.
          let stored =
            with_topology-trusted hash_topology discovery
              (missing_instances_for resource discovery true now) before trusted in
          inl (trusted, refl, stored.0, stored.1))
        (λ untrusted. inr (
          untrusted,
          (
            refl,
            fallback_topology hash_topology resource discovery
                (λ used. missing_instances_for resource used true now) before untrusted,
          ),
        ))

  pub discovery_job-effect :
      (answer : Answer DiscoveryResult)
      → (let found = discovered_by_job hash_topology api watch_name resource answer in
          DiscoveryEffect resource answer now before (
            update_discovery_status hash_topology found.0
              (missing_instances_for resource found.0 true now)
              found.1
              now
              before))
  unfolding update_discovery_status
  discovery_job-effect answer =
      let found = discovered_by_job hash_topology api watch_name resource answer in
      let kept =
        with_topology-KeepsHealth hash_topology found.0
          (missing_instances_for resource found.0 true now) before in
      if_cases (DiscoveryEffect resource answer now before)
        (is_newer before.last_discovery_time now) _ _ (λ newer. later_discovery newer refl)
        (λ current.
          stored_discovery current refl
            (record {
              monitor_time = kept.monitor_time;
              instances = kept.instances;
              applied = kept.applied;
            })
            (written-Stores answer))

-- What a monitor job plans with: the stored topology, and the health that it is given.
abbrev pub monitor_input : PgBouncerAurora → List (String × HealthStatus) → Bool → Input
monitor_input resource health cached = record {
  resource = resource;
  discovery_trusted = true;
  discovered = topology_observations resource.status.last_known_topology;
  health = health;
  cached_health = cached;
  missing_instances = resource.status.missing_instances;
}

-- The instances are those of a plan with the health that the monitor answers, or else the stored one.
abbrev pub planned_by_job :
    PgBouncerAurora → Answer (List (String × HealthStatus)) → List InstancePlan
planned_by_job resource (ok health) = (plan (monitor_input resource health false)).instances
planned_by_job resource (failed error) =
    (plan (monitor_input resource (health_from_status resource.status.instances) true)).instances

-- Two hashes that do not show that their topologies differ; an empty one is unknown.
abbrev pub fits : String → String → Bool
fits stored monitored = stored == "" || monitored == "" || stored == monitored

-- The result is stored unless a later one is, or the topology that was monitored is not the stored one.
pub data MonitorEffect (hash_topology : List InstanceTopologyStatus → String)
    (resource : PgBouncerAurora) (answer : Answer (List (String × HealthStatus))) (now : ℕ)
    (before after : PgBouncerAuroraStatus) : Type 0 where
  later_monitor :
      is_newer before.last_monitor_time now ≡ true
      → after ≡ before
      → MonitorEffect hash_topology resource answer now before after
  other_topology :
      fits before.topology_hash (hash_topology resource.status.last_known_topology) ≡ false
      → after ≡ before
      → MonitorEffect hash_topology resource answer now before after
  stored_monitor :
      is_newer before.last_monitor_time now ≡ false
      → fits before.topology_hash (hash_topology resource.status.last_known_topology) ≡ true
      → after.last_monitor_time ≡ some now
      → KeepsTopology before after
      → after.instances ≡ instance_status (planned_by_job resource answer)
      → MonitorEffect hash_topology resource answer now before after

module _ (hash_topology : List InstanceTopologyStatus → String)
    (role_service_name : String → String → String) {S : Type 0} (api : StatusApi S)
    (watch_name : String) (resource fresh : PgBouncerAurora) (now : ℕ) where
  other_hash :
      (reason : String)
      → is_stale hash_topology (cached_result resource reason) fresh.status ≡ true
      → fits fresh.status.topology_hash (hash_topology resource.status.last_known_topology) ≡ false
  unfolding cached_result
  other_hash reason stale =
      subst (λ topology. fits fresh.status.topology_hash (hash_topology topology) ≡ false)
        (same_topology resource.status.last_known_topology) (ground (arith, stale))

  same_hash :
      (reason : String)
      → is_stale hash_topology (cached_result resource reason) fresh.status ≡ false
      → fits fresh.status.topology_hash (hash_topology resource.status.last_known_topology) ≡ true
  unfolding cached_result
  same_hash reason fitting =
      subst (λ topology. fits fresh.status.topology_hash (hash_topology topology) ≡ true)
        (same_topology resource.status.last_known_topology) (ground (arith, fitting))

  pub monitor_job-effect :
      (reason monitor_err : String) (planned : Output)
      (answer : Answer (List (String × HealthStatus)))
      → planned.instances ≡ planned_by_job resource answer
      → MonitorEffect hash_topology resource answer now fresh.status (
          update_monitor_status hash_topology role_service_name
            (cached_result resource reason)
            planned
            monitor_err
            now
            fresh)
  unfolding update_monitor_status
  monitor_job-effect reason monitor_err planned answer same =
      if_cases (MonitorEffect hash_topology resource answer now fresh.status)
        (is_newer fresh.status.last_monitor_time now) _ _ (λ newer. later_monitor newer refl)
        (λ current.
          if_cases (MonitorEffect hash_topology resource answer now fresh.status)
            (is_stale hash_topology (cached_result resource reason) fresh.status) _ _
            (λ stale. other_topology (other_hash reason stale) refl)
            (λ fitting.
              stored_monitor current (same_hash reason fitting) refl
                (record {
                  discovery_time = refl;
                  failures = refl;
                  topology = refl;
                  missing = refl;
                  applied = refl;
                })
                (ap instance_status same)))

pub cached_discovery-trusted :
    (resource : PgBouncerAurora)
    → (cached_discovery resource).trusted ≡ true
    → (last_discovery_trusted resource ≡ true)
      × (is_empty resource.status.last_known_topology ≡ false)
      × (cached_discovery resource ≡ cached_result resource (last_discovery_message resource))
unfolding cached_discovery
cached_discovery-trusted resource h =
    elim (Bool-cases
      (not (last_discovery_trusted resource) || is_empty resource.status.last_known_topology)) [
        | inl e ↦ cc (sym h ∙ ap (λ (d : DiscoveryResult). d.trusted) (if_true _ _ e))
        | inr e ↦ (ground (arith, e), ground (arith, e), if_false _ _ e)
      ]

pub cached_discovery-untrusted :
    (resource : PgBouncerAurora)
    → (cached_discovery resource).trusted ≡ false
    → (last_discovery_trusted resource && not (is_empty resource.status.last_known_topology))
      ≡ false
unfolding cached_discovery cached_result
cached_discovery-untrusted resource h =
    elim (Bool-cases
      (not (last_discovery_trusted resource) || is_empty resource.status.last_known_topology)) [
        | inl e ↦ ground (arith, e)
        | inr e ↦ cc (sym h ∙ ap (λ (d : DiscoveryResult). d.trusted) (if_false _ _ e))
      ]
