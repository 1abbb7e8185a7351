-- ===== src/Planner/Identity.antt =====
-- internal/planner/planner.go: an instance that another physical machine has taken over.
use pgbouncer_aurora_operato.Base.{
  if◌then◌else◌, lookup, String, ◌≡◌, ap, ◌∙◌, true, false, some, List, [], arith,
}
use pgbouncer_aurora_operato.Api.{InstanceStatus}
use pgbouncer_aurora_operato.Domain.{InstanceObservation}
use pgbouncer_aurora_operato.Planner.{
  physical_identity_changed, instance_disabled, Input, no_status, previous_for, initial_plan,
  enabled_plan, plan_for,
}

-- If both identities are known and differ, the stored status of the name plays no part in its plan:
-- the plan is the one of an instance that was never seen.
plan_for_new_machine :
    (input : Input) (previous : List (String × InstanceStatus)) (observed : InstanceObservation)
    (stored : InstanceStatus)
    → lookup observed.name previous ≡ some stored
    → physical_identity_changed observed.dbi_resource_id stored.dbi_resource_id ≡ true
    → plan_for input previous observed ≡ plan_for input [] observed
unfolding plan_for
plan_for_new_machine input previous observed stored found changed =
    ap
      (λ status.
        if instance_disabled input.resource.spec.pgbouncer observed.name
        then record (initial_plan input observed) {
          disabled = true;
          reason = "disabled by spec.pgbouncer.instanceOverrides";
          replicas = 0;
        }
        else enabled_plan input observed status)
      (ap (λ entry. previous_for entry observed) found ∙ forgotten)
  where
    forgotten : previous_for (some stored) observed ≡ (no_status, false)
    forgotten = ground arith
