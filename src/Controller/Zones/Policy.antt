-- ===== src/Controller/Zones/Policy.antt =====
-- internal/controller/reconciler.go: when the zones conflict, and what the policy does about it.
use pgbouncer_aurora_operato.Base.{
  if◌then◌else◌, if_cases, is_empty, any, is_empty-append, join, sort_strings, lookup, String, ◌≡◌,
  refl, sym, subst, ◌∙◌, Bool, true, false, not, ◌&&◌, ◌||◌, List, [], ◌∷◌, arith, ◌==◌, eq_iff,
}
use pgbouncer_aurora_operato.Api.{PgBouncerAurora, condition_true, condition_false}
use pgbouncer_aurora_operato.Domain.{InstancePlan}
use pgbouncer_aurora_operato.Planner.{plan, enabled_default_true, Output}
use pgbouncer_aurora_operato.Controller.Conditions.{Judgement}
use pgbouncer_aurora_operato.Controller.Pods.{active_plan_instances}
use pgbouncer_aurora_operato.Controller.Zones.{
  required_node_affinity_conflicts, has_topology_spread_on_key, effective_node_selector,
  selects_other_zone, zone_messages, zones_messages, spread_messages, zone_topology_key,
  all_zone_messages, zone_aware_conflict_condition, freeze_for, apply_zone_aware_conflict_policy,
}

-- The pods of the instance are kept out of its zone, by the node selector or by the required affinity.
abbrev pub kept_out : PgBouncerAurora → InstancePlan → Bool
kept_out resource instance_plan =
    not (instance_plan.availability_zone == "")
    && (selects_other_zone
          (lookup (zone_topology_key resource) resource.spec.pgbouncer.node_selector)
          instance_plan.availability_zone
        || required_node_affinity_conflicts resource.spec.pgbouncer.required_node_affinity
            (zone_topology_key resource) instance_plan.availability_zone)

-- Some active instance is kept out of its zone, or pods that the zones pin are to spread over them.
abbrev pub zones_conflict : PgBouncerAurora → Output → Bool
zones_conflict resource plan =
    any (kept_out resource) (active_plan_instances plan.instances)
    || (resource.spec.topology_policy.zone_aware.enforcement == "Required"
        && has_topology_spread_on_key resource (zone_topology_key resource))

is_empty-zone_messages :
    (resource : PgBouncerAurora) (instance_plan : InstancePlan)
    → is_empty (zone_messages resource (zone_topology_key resource) instance_plan)
      ≡ not (kept_out resource instance_plan)
unfolding zone_messages effective_node_selector
is_empty-zone_messages resource p = ground arith

is_empty-zones_messages :
    (resource : PgBouncerAurora) (instances : List InstancePlan)
    → is_empty (zones_messages resource (zone_topology_key resource) instances)
      ≡ not (any (kept_out resource) instances)
unfolding zones_messages
is_empty-zones_messages resource [] = refl
is_empty-zones_messages resource (p ∷ rest) = ground (
  arith,
  is_empty-append (zone_messages resource (zone_topology_key resource) p)
      (zones_messages resource (zone_topology_key resource) rest),
  is_empty-zone_messages resource p,
  is_empty-zones_messages resource rest,
)

is_empty-all_zone_messages :
    (resource : PgBouncerAurora) (plan : Output)
    → is_empty (all_zone_messages resource plan) ≡ not (zones_conflict resource plan)
unfolding spread_messages
is_empty-all_zone_messages resource plan = ground (
  arith,
  is_empty-append
      (zones_messages resource (zone_topology_key resource) (active_plan_instances plan.instances))
      (spread_messages resource (zone_topology_key resource)),
  is_empty-zones_messages resource (active_plan_instances plan.instances),
)

-- The condition's branches, with the tests as values.
branch-true :
    (enabled ignored silent : Bool) (reason message : String)
    → (if◌then◌else◌ {A = Judgement}
          (not enabled)
          (condition_false, "ZoneAwareDisabled", "")
          (if ignored
            then (condition_false, "ConflictIgnored", "")
            else if silent
            then (condition_false, "NoZoneAwareConflict", "")
            else (condition_true, reason, message))).0
        == condition_true
      ≡ (enabled && not ignored && not silent)
branch-true false ignored silent reason message = refl
branch-true true true silent reason message = refl
branch-true true false true reason message = refl
branch-true true false false reason message = refl

-- The condition of zone conflicts is true just if zones are not switched off, the policy is not to ignore
-- conflicts, and some active instance is kept out of its zone or the spread constraints oppose the pinning.
pub zone_aware_conflict_condition-true :
    (resource : PgBouncerAurora) (plan : Output)
    → (zone_aware_conflict_condition resource plan).0 == condition_true ≡ (
        enabled_default_true resource.spec.topology_policy.zone_aware.enabled
        && not (resource.spec.topology_policy.zone_aware.conflict_policy == "Ignore")
        && zones_conflict resource plan)
unfolding zone_aware_conflict_condition
zone_aware_conflict_condition-true resource plan =
    let zone_aware = resource.spec.topology_policy.zone_aware in
    let shown =
      branch-true (enabled_default_true zone_aware.enabled) (zone_aware.conflict_policy == "Ignore")
        (is_empty (all_zone_messages resource plan))
        (if zone_aware.conflict_policy == "Fail"
          then "ZoneAwareConflictFail"
          else "ZoneAwareConflictWarn")
        (join (sort_strings (all_zone_messages resource plan)) "; ") in
    ground (arith, shown, is_empty-all_zone_messages resource plan)

fail_not_ignore : (policy : String) → policy == "Fail" ≡ true → policy == "Ignore" ≡ false
fail_not_ignore policy h =
    subst (λ (s : String). s == "Ignore" ≡ false) (sym ((eq_iff policy "Fail").0 h)) refl

failing :
    (shown fail frozen enabled ignored conflict : Bool)
    → shown ≡ (enabled && not ignored && conflict)
    → frozen ≡ false
    → not fail ≡ false
    → ignored ≡ false
    → shown ≡ (frozen || (fail && enabled && conflict))
failing shown fail frozen enabled ignored conflict h live fails heeded = ground arith

freeze_for-frozen :
    (judgement : Judgement) (plan : Output)
    → plan.frozen ≡ false
    → (freeze_for judgement plan).frozen ≡ (judgement.0 == condition_true)
freeze_for-frozen (status, reason, message) plan h =
    if_cases (λ (p : Output). p.frozen ≡ (status == condition_true))
      (not (status == condition_true)) _ _ (λ e. ground (arith, e, h)) (λ e. ground (arith, e))

-- The policy freezes a plan just if it is `Fail`, zones are not switched off and they conflict; a plan that is
-- frozen already stays so, and in no case are the instances or the membership of the plan changed.
pub apply_zone_aware_conflict_policy-frozen :
    (resource : PgBouncerAurora) (plan : Output)
    → let zone_aware = resource.spec.topology_policy.zone_aware in
      let after = apply_zone_aware_conflict_policy resource plan in
      (after.frozen ≡ (
        plan.frozen
        || (zone_aware.conflict_policy == "Fail"
            && enabled_default_true zone_aware.enabled
            && zones_conflict resource plan)))
      × (after.instances ≡ plan.instances)
      × (after.membership ≡ plan.membership)
unfolding apply_zone_aware_conflict_policy
apply_zone_aware_conflict_policy-frozen resource plan =
    let policy = resource.spec.topology_policy.zone_aware.conflict_policy in
    let enabled = enabled_default_true resource.spec.topology_policy.zone_aware.enabled in
    let condition = zone_aware_conflict_condition resource plan in
    let conflict = zone_aware_conflict_condition-true resource plan in
    let result : Output → Type 0 = λ after.
      (after.frozen
        ≡ (plan.frozen || (policy == "Fail" && enabled && zones_conflict resource plan)))
      × (after.instances ≡ plan.instances)
      × (after.membership ≡ plan.membership) in
    if_cases result plan.frozen _ _ (λ e. (ground (arith, e), refl, refl))
      λ live.
        if_cases result (not (policy == "Fail")) _ _ (λ e. (ground (arith, e, live), refl, refl))
          λ fails. (
            freeze_for-frozen condition plan live
                ∙ failing (condition.0 == condition_true) (policy == "Fail") plan.frozen enabled
                    (policy == "Ignore") (zones_conflict resource plan) conflict live fails
                    (fail_not_ignore policy (ground (arith, fails))),
            if_cases (λ (p : Output). p.instances ≡ plan.instances)
                (not (condition.0 == condition_true)) _ _ (λ _. refl) (λ _. refl),
            if_cases (λ (p : Output). p.membership ≡ plan.membership)
                (not (condition.0 == condition_true)) _ _ (λ _. refl) (λ _. refl),
          )
