-- ===== src/Controller/Membership/Changes.antt =====
-- internal/controller/reconciler.go: what the fast path may change, and what an untrusted discovery leaves
-- alone.
use pgbouncer_aurora_operato.Base.{
  or_left, if_cases, if_true, Answer, ok, map_answer, ℕ, String, ◌≡◌, refl, ap, ◌∙◌, Bool, true,
  false, not, List, arith,
}
use pgbouncer_aurora_operato.Api.{PgBouncerAurora}
use pgbouncer_aurora_operato.Domain.{DiscoveryResult}
use pgbouncer_aurora_operato.Planner.{
  frozen_plan, plan, plan_untrusted, Input, Output, last_writer, last_reader,
}
use pgbouncer_aurora_operato.Controller.Missing.{missing_instances_for}
use pgbouncer_aurora_operato.Controller.Removal.{cleanup_removed_instance_resources}
use pgbouncer_aurora_operato.Controller.Membership.{
  single_discovered_writer, skips_fast_path, fail_over_if_ready, apply_writer_failover_fast_path,
  InstanceApplyShape, should_apply_plan,
}
use pgbouncer_aurora_operato.Controller.Membership.Failover.{
  unchanged, IsFastPath, skips_fast_path-IsKept, fail_over_if_ready-FastPath,
}

-- The fast path makes the writer of a trusted discovery the only writer of a plan, raises the ready pods known of that
-- instance to those counted, and changes nothing else of the membership or the instances, if the plan is not frozen,
-- the discovery has one writer, which is neither the only one applied nor the only one planned, some writer was
-- applied before, and the new one is enabled and has a ready pod. It leaves a plan as it is only if one of these
-- does not hold. An error is that of the count of the pods.
pub apply_writer_failover_fast_path-FastPath :
    (resource : PgBouncerAurora) (discovery : DiscoveryResult)
    (ready_counts : Answer (List (String × ℕ))) (plan : Output)
    → IsFastPath resource discovery ready_counts plan
        (apply_writer_failover_fast_path resource discovery ready_counts plan)
unfolding apply_writer_failover_fast_path
apply_writer_failover_fast_path-FastPath resource discovery ready_counts plan =
    if_cases (IsFastPath resource discovery ready_counts plan)
      (skips_fast_path resource discovery plan) _ _
      (λ skipped.
        unchanged refl (skips_fast_path-IsKept resource discovery ready_counts plan skipped))
      (fail_over_if_ready-FastPath resource discovery ready_counts ready_counts plan refl)

frozen_plan-frozen : (input : Input) → (frozen_plan input).frozen ≡ true
unfolding frozen_plan
frozen_plan-frozen input = refl

pub plan-frozen : (input : Input) → input.discovery_trusted ≡ false → (plan input).frozen ≡ true
plan-frozen input e = ap (λ out. out.frozen) (plan_untrusted input e) ∙ frozen_plan-frozen input

frozen_plan-membership :
    (input : Input)
    → ((frozen_plan input).membership.writer ≡ last_writer input.resource)
      × ((frozen_plan input).membership.reader ≡ last_reader input.resource)
unfolding frozen_plan
frozen_plan-membership input = (refl, refl)

frozen-skips_fast_path :
    (resource : PgBouncerAurora) (discovery : DiscoveryResult) (plan : Output)
    → plan.frozen ≡ true
    → skips_fast_path resource discovery plan ≡ true
unfolding skips_fast_path
frozen-skips_fast_path resource discovery plan h = ground (arith, h)

frozen-fast_path :
    (resource : PgBouncerAurora) (discovery : DiscoveryResult)
    (ready_counts : Answer (List (String × ℕ))) (plan : Output)
    → plan.frozen ≡ true
    → apply_writer_failover_fast_path resource discovery ready_counts plan ≡ ok plan
unfolding apply_writer_failover_fast_path
frozen-fast_path resource discovery ready_counts plan h =
    if_true (ok plan)
      (map_answer (fail_over_if_ready (single_discovered_writer discovery.instances) plan)
        ready_counts)
      (frozen-skips_fast_path resource discovery plan h)

-- After a discovery that is not trusted the plan has the membership that was applied last, the fast path
-- leaves it as it is, it is not applied, and no missing instance is removed or counted again.
pub untrusted_changes_nothing :
    {S : Type 0} (hash_shapes : List InstanceApplyShape → String)
    (delete_resources : S → String → Answer S) (input : Input) (discovery : DiscoveryResult) (s : S)
    (ready_counts : Answer (List (String × ℕ))) (drift : Answer (Bool × String))
    (discovery_ran monitor_ran : Bool) (now : ℕ)
    → input.discovery_trusted ≡ discovery.trusted
    → discovery.trusted ≡ false
    → ((plan input).membership.writer ≡ last_writer input.resource)
      × ((plan input).membership.reader ≡ last_reader input.resource)
      × (apply_writer_failover_fast_path input.resource discovery ready_counts (plan input)
          ≡ ok (plan input))
      × (should_apply_plan hash_shapes input.resource
            (plan input)
            input.missing_instances
            discovery_ran
            monitor_ran
            now
            drift
          ≡ ok (false, "frozen"))
      × (missing_instances_for input.resource discovery discovery_ran now
          ≡ input.resource.status.missing_instances)
      × (cleanup_removed_instance_resources delete_resources input.resource discovery s
            input.missing_instances now
          ≡ ok (s, input.missing_instances))
unfolding should_apply_plan missing_instances_for cleanup_removed_instance_resources
untrusted_changes_nothing hash_shapes delete_resources input discovery s ready_counts drift
      discovery_ran monitor_ran now same distrusted =
    let untrusted = same ∙ distrusted in
    let membership = frozen_plan-membership input in
    (
      ap (λ out. out.membership.writer) (plan_untrusted input untrusted) ∙ membership.0,
      ap (λ out. out.membership.reader) (plan_untrusted input untrusted) ∙ membership.1,
      frozen-fast_path input.resource discovery ready_counts (plan input)
          (plan-frozen input untrusted),
      if_true _ _ (plan-frozen input untrusted),
      if_true _ _ (or_left (not discovery_ran) (ap not distrusted)),
      if_true _ _ (ap not distrusted),
    )
