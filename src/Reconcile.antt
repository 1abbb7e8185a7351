-- ===== src/Reconcile.antt =====
-- internal/controller/reconciler.go: `Reconcile`, from the request to the update of the status. The calls of the
-- API server, the discovery provider, the health monitor, the hashes and the drift check are arguments. Log
-- lines are left out; an error gives up the state that was reached.
pub mod Frozen
mod Tests
use pgbouncer_aurora_operato.Base.{
  ltb, if◌then◌else◌, Answer, ok, failed, map_answer, ◌>>=◌, ℕ, String, Bool, false, not, Option,
  none, some, List,
}
use pgbouncer_aurora_operato.Api.{PgBouncerAurora, MissingInstanceStatus, PgBouncerAuroraStatus}
use pgbouncer_aurora_operato.Domain.{DiscoveryResult}
use pgbouncer_aurora_operato.Kubernetes.{Pod}
use pgbouncer_aurora_operato.Planner.{plan, Output}
use pgbouncer_aurora_operato.Controller.Due.{requeue_after}
use pgbouncer_aurora_operato.Controller.Throttle.{
  Started, reconcile_throttle_remaining, forget_reconcile_throttle,
}
use pgbouncer_aurora_operato.Controller.Cache.{cached_discovery, Discovered, discovery_for}
use pgbouncer_aurora_operato.Controller.Pods.{PodApi, patch_pod_membership}
use pgbouncer_aurora_operato.Controller.Missing.{missing_instances_for}
use pgbouncer_aurora_operato.Controller.Removal.{
  delete_instance_resources, cleanup_removed_instance_resources,
}
use pgbouncer_aurora_operato.Controller.Membership.{
  apply_writer_failover_fast_path, InstanceApplyShape, should_apply_plan,
}
use pgbouncer_aurora_operato.Controller.Restart.{
  WriterRestartTokenPayload, DeploymentApi, handle_writer_change_connection,
}
use pgbouncer_aurora_operato.Controller.Stored.{Results, Hashes, updated_status}
use pgbouncer_aurora_operato.Controller.Zones.{apply_zone_aware_conflict_policy}
use pgbouncer_aurora_operato.Controller.Reported.{conditions_for}
use pgbouncer_aurora_operato.Controller.Health.{
  ready_pod_counts, Monitored, stored_health, Check, health_for,
}
use pgbouncer_aurora_operato.Controller.Apply.{ApplyApi, apply_desired}
use pgbouncer_aurora_operato.Scheduler.Watch.{matches_watch_names}

-- The reconciler and the server. `scheduled` tells that a scheduler sends the events, and so discovers and
-- monitors; `drift` answers for `cachedPlanNeedsApply`.
pub record Reconciler (S : Type 0) : Type 0 where
  pub watch_names : String
  pub min_interval : ℕ
  pub scheduled : Bool
  pub discover : Option (PgBouncerAurora → Answer DiscoveryResult)
  pub monitor : Option Check
  pub get : S → Answer (Option PgBouncerAurora)
  pub refresh : S → PgBouncerAurora → Answer (Option PgBouncerAurora)
  pub pods : S → Answer (List Pod)
  pub pod_names : S → Answer (List String)
  pub pod_api : PodApi S
  pub deployment_api : DeploymentApi S
  pub apply_api : ApplyApi S
  pub drift : S → PgBouncerAurora → Output → Answer (Bool × String)
  pub update : S → (PgBouncerAuroraStatus → PgBouncerAuroraStatus) → Answer S
  pub hashes : Hashes
  pub hash_shapes : List InstanceApplyShape → String
  pub hash_token : WriterRestartTokenPayload → String
  pub role_service_name : String → String → String
  pub resource_name : String → String → String

module _ {S : Type 0} (r : Reconciler S) where
  -- `r.Get` and `refreshResourceFromAPI`; `none` is a resource that is not found.
  unfoldable pub read_resource : S → Answer (Option PgBouncerAurora)
  read_resource s =
      r.get s >>= λ found. elim found [ none ↦ ok none | some resource ↦ r.refresh s resource ]

  unfoldable pub discovered_for : PgBouncerAurora → ℕ → Answer Discovered
  discovered_for resource now =
      if r.scheduled
      then ok
          (record { discovery = cached_discovery resource; ran = false; discovery_failed = false })
      else elim r.discover [
        | none ↦ failed "discovery is required"
        | some discover ↦ discovery_for discover resource now
      ]

  unfoldable pub monitored_for : PgBouncerAurora → Discovered → S → ℕ → Answer Monitored
  monitored_for resource found s now =
      if r.scheduled
      then ok (stored_health resource "")
      else health_for r.monitor (r.pods s) resource found.discovery found.ran now

  unfoldable pub missing_for : PgBouncerAurora → Discovered → ℕ → List MissingInstanceStatus
  missing_for resource found now =
      if found.ran
      then missing_instances_for resource found.discovery found.ran now
      else resource.status.missing_instances

  abbrev pub planned : PgBouncerAurora → Discovered → Monitored → ℕ → Output
  planned resource found health now = plan (record {
    resource = resource;
    discovery_trusted = found.discovery.trusted;
    discovered = found.discovery.instances;
    health = health.health;
    cached_health = health.cached;
    missing_instances = missing_for resource found now;
  })

  -- The plan with the fast path and the policy of zones applied.
  unfoldable pub plan_for_reconcile :
      PgBouncerAurora → Discovered → Monitored → S → ℕ → Answer Output
  plan_for_reconcile resource found health s now =
      map_answer (apply_zone_aware_conflict_policy resource) (
        apply_writer_failover_fast_path resource found.discovery (ready_pod_counts (r.pods s))
          (planned resource found health now))

  -- The calls under `if shouldApply`, and the missing instances that are left.
  unfoldable pub apply_plan :
      PgBouncerAurora → Discovered → Output → S → ℕ → Answer (S × List MissingInstanceStatus)
  apply_plan resource found plan s now = do
    let missing = missing_for resource found now
    s₁ ← apply_desired r.apply_api r.role_service_name r.resource_name resource plan s
    removed ←
        cleanup_removed_instance_resources
          (delete_instance_resources r.apply_api.delete r.resource_name resource) resource
          found.discovery s₁ missing now
    s₂ ← patch_pod_membership r.pod_api plan removed.0 (r.pod_names removed.0)
    s₃ ←
        handle_writer_change_connection r.deployment_api r.resource_name r.hash_token resource plan
          s₂
    ok (s₃, removed.1)

  abbrev pub results_of :
      PgBouncerAurora → Discovered → Monitored → Output → List MissingInstanceStatus → ℕ → Results
  results_of resource found health plan missing now = record {
    resource = resource;
    discovery = found.discovery;
    plan = plan;
    missing_instances = missing;
    discovery_ran = found.ran;
    discovery_failed = found.discovery_failed;
    monitor_ran = health.ran;
    now = now;
  }

  -- The call of `updateStatus`, and when to reconcile again.
  abbrev pub finish_reconcile :
      PgBouncerAurora
      → Discovered
      → Monitored
      → Output
      → ℕ
      → S × List MissingInstanceStatus
      → Answer (ℕ × S)
  finish_reconcile resource found health plan now (s, missing) =
      map_answer (λ s'. (if r.scheduled then 0 else requeue_after resource, s'))
        (r.update s (
          updated_status r.hashes r.role_service_name
            (λ previous.
              conditions_for resource previous found.discovery plan health.monitor_err now)
            (results_of resource found health plan missing now)))

  abbrev pub apply_if :
      PgBouncerAurora
      → Discovered
      → Output
      → S
      → ℕ
      → Bool × String
      → Answer (S × List MissingInstanceStatus)
  apply_if resource found plan s now (applies, reason) =
      let applied = apply_plan resource found plan s now in
      if applies then applied else ok (s, missing_for resource found now)

  -- From the discovery to the update of the status.
  unfoldable pub reconcile_resource : PgBouncerAurora → S → ℕ → Answer (ℕ × S)
  reconcile_resource resource s now = do
    found ← discovered_for resource now
    health ← monitored_for resource found s now
    plan ← plan_for_reconcile resource found health s now
    applies ←
        should_apply_plan r.hash_shapes resource plan (missing_for resource found now) found.ran
          health.ran now (r.drift s resource plan)
    applied ← apply_if resource found plan s now applies
    finish_reconcile resource found health plan now applied

  abbrev pub reconcile_found :
      String → Started → S → ℕ → Answer (Option PgBouncerAurora) → Answer (ℕ × S) × Started
  reconcile_found key started s now (failed error) = (failed error, started)
  reconcile_found key started s now (ok none) = (ok (0, s), forget_reconcile_throttle key started)
  reconcile_found key started s now (ok (some resource)) = elim r.discover [
    | none ↦ (failed "discovery is required", started)
    | some discover ↦ (reconcile_resource resource s now, started)
  ]

  -- A request for the resource with the name and the key; 0 stands for no time to reconcile again.
  unfoldable pub reconcile : String → String → Started → S → ℕ → Answer (ℕ × S) × Started
  reconcile name key started s now =
      let (remaining, started') = reconcile_throttle_remaining r.min_interval key now started in
      let done = reconcile_found key started' s now (read_resource s) in
      if not (matches_watch_names r.watch_names name)
      then (ok (0, s), started)
      else if ltb 0 remaining
      then (ok (remaining, s), started')
      else done
