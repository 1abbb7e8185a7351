-- ===== src/Reconcile/Frozen.antt =====
-- internal/controller/reconciler.go: a reconcile that does not trust the stored topology.
use pgbouncer_aurora_operato.Base.{
  if_true, Answer, ok, map_answer, bind_ok, ℕ, String, ◌≡◌, ap, ◌∙◌, Bool, true, false, List, arith,
}
use pgbouncer_aurora_operato.Api.{PgBouncerAurora, MissingInstanceStatus, PgBouncerAuroraStatus}
use pgbouncer_aurora_operato.Domain.{DiscoveryResult}
use pgbouncer_aurora_operato.Planner.{plan, Output}
use pgbouncer_aurora_operato.Controller.Cache.{cached_discovery, Discovered}
use pgbouncer_aurora_operato.Controller.Membership.{
  skips_fast_path, apply_writer_failover_fast_path, should_apply_plan,
}
use pgbouncer_aurora_operato.Controller.Membership.Changes.{plan-frozen}
use pgbouncer_aurora_operato.Controller.Stored.{updated_status}
use pgbouncer_aurora_operato.Controller.Stored.Agrees.{SameState, updated_status-SameState}
use pgbouncer_aurora_operato.Controller.Zones.{apply_zone_aware_conflict_policy}
use pgbouncer_aurora_operato.Controller.Reported.{conditions_for}
use pgbouncer_aurora_operato.Controller.Health.{Monitored, stored_health, monitored}
use pgbouncer_aurora_operato.Reconcile.{
  Reconciler, discovered_for, monitored_for, missing_for, planned, plan_for_reconcile, results_of,
  reconcile_resource,
}

skips_fast_path-frozen :
    (resource : PgBouncerAurora) (discovery : DiscoveryResult) (plan : Output)
    → plan.frozen ≡ true
    → skips_fast_path resource discovery plan ≡ true
unfolding skips_fast_path
skips_fast_path-frozen resource discovery plan h = ground (arith, h)

module _ {S : Type 0} (r : Reconciler S) (resource : PgBouncerAurora) (s : S) (now : ℕ) where
  plan_for_reconcile-frozen :
      (found : Discovered) (health : Monitored)
      → found.discovery.trusted ≡ false
      → plan_for_reconcile r resource found health s now ≡ ok (planned r resource found health now)
  unfolding plan_for_reconcile apply_writer_failover_fast_path apply_zone_aware_conflict_policy
  plan_for_reconcile-frozen found health untrusted =
      let frozen = plan-frozen _ untrusted in
      ap (map_answer (apply_zone_aware_conflict_policy resource))
        (if_true _ _ (skips_fast_path-frozen resource found.discovery _ frozen))
      ∙ ap ok (if_true _ _ frozen)

  should_apply_plan-frozen :
      (plan : Output) (missing : List MissingInstanceStatus) (ran monitored : Bool)
      (drift : Answer (Bool × String))
      → plan.frozen ≡ true
      → should_apply_plan r.hash_shapes resource plan missing ran monitored now drift
        ≡ ok (false, "frozen")
  unfolding should_apply_plan
  should_apply_plan-frozen plan missing ran monitored drift frozen = if_true _ _ frozen

  -- If a scheduler discovers, and the stored topology is not trusted, then a reconcile makes one call that
  -- changes the cluster, the update of the status, and it keeps the stored topology, missing instances,
  -- instances, applied membership and its time, whatever the status is when it is read again.
  pub reconcile_resource-untrusted :
      r.scheduled ≡ true
      → (cached_discovery resource).trusted ≡ false
      → (change : PgBouncerAuroraStatus → PgBouncerAuroraStatus) × (reconcile_resource r resource s
            now
          ≡ map_answer (λ s'. (0, s')) (r.update s change))
        × ((fresh : PgBouncerAuroraStatus) → SameState (change fresh) fresh)
  unfolding reconcile_resource discovered_for monitored_for
  reconcile_resource-untrusted scheduled untrusted =
      let found : Discovered = record {
        discovery = cached_discovery resource;
        ran = false;
        discovery_failed = false;
      } in
      let health = stored_health resource "" in
      let frozen_plan = planned r resource found health now in
      let frozen = plan-frozen _ untrusted in
      let missing = missing_for r resource found now in
      let change =
        updated_status r.hashes r.role_service_name
          (λ previous. conditions_for resource previous found.discovery frozen_plan "" now)
          (results_of r resource found health frozen_plan missing now) in
      (
        change,
        bind_ok _ (if_true _ _ scheduled)
            ∙ bind_ok _ (if_true _ _ scheduled)
            ∙ bind_ok _ (plan_for_reconcile-frozen found health untrusted)
            ∙ bind_ok _ (
                should_apply_plan-frozen frozen_plan missing false false
                  (r.drift s resource frozen_plan) frozen)
            ∙ ap (λ (n : ℕ). map_answer (λ s'. (n, s')) (r.update s change))
                (if_true _ _ scheduled),
        λ fresh.
            updated_status-SameState r.hashes r.role_service_name _
              (results_of r resource found health frozen_plan missing now) fresh untrusted frozen,
      )
