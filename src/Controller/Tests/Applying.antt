-- ===== src/Controller/Tests/Applying.antt =====
-- What is applied, reported and restarted, at concrete inputs.
use pgbouncer_aurora_operato.Base.{
  if◌then◌else◌, any, int32_add, int32_pos, sprint_int32, join, sort_by, lookup, insert,
  lookup-insert, Answer, ok, failed, ◌≤◌, String, ◌^^◌, ◌≡◌, refl, sym, ap, ◌∙◌, Bool, true, false,
  not, ◌&&◌, some, List, [], ◌∷◌, ◌++◌, map, ◌==◌,
}
use pgbouncer_aurora_operato.Api.{role_writer, role_reader, condition_true}
use pgbouncer_aurora_operato.Domain.{DiscoveryResult}
use pgbouncer_aurora_operato.Samples.{
  sample_status, sample_resource, sample_observation, sample_input,
}
use pgbouncer_aurora_operato.Planner.{
  sort_instance_plans, observed_output, gathered, observed_plan, kept_plan, stabilized_plan, plan,
  override_disables, instance_disabled, replicas_for, previous_instance_status, active_missing,
  progress, apply_health, apply_monitor_thresholds, Input, previous_for, enabled_plan, plan_for,
  gather, observe_all, last_writer, last_reader, stabilize_writers, stabilize_writer_membership,
  skips_missing_reader, preserve_missing_readers, preserve_missing_reader_membership,
  stabilize_reader_membership,
}
use pgbouncer_aurora_operato.Controller.Labels.{Labels}
use pgbouncer_aurora_operato.Controller.Missing.{missing_instances_for}
use pgbouncer_aurora_operato.Controller.Removal.{cleanup_removed_instance_resources}
use pgbouncer_aurora_operato.Controller.Membership.{
  apply_writer_failover_fast_path, InstanceApplyShape, should_apply_plan,
}
use pgbouncer_aurora_operato.Controller.Membership.Sets.{AreDistinct}
use pgbouncer_aurora_operato.Controller.Membership.Failover.{IsFastPath}
use pgbouncer_aurora_operato.Controller.Membership.Changes.{
  apply_writer_failover_fast_path-FastPath, untrusted_changes_nothing,
}
use pgbouncer_aurora_operato.Controller.Conditions.{role_ready_condition}
use pgbouncer_aurora_operato.Controller.Conditions.Ready.{role_ready_condition-any}
use pgbouncer_aurora_operato.Controller.Summary.{role_service_summary, role_service_summary-adds_up}
use pgbouncer_aurora_operato.Controller.Restart.{
  DeploymentApi, restart_instance_deployments, IsDeploymentStore, RestartedAfter,
  restart_instance_deployments-RestartedAfter,
}

-- `db-2` is the writer now, and has a ready pod.
abbrev moved_discovery : DiscoveryResult
moved_discovery = record {
  trusted = true;
  instances = sample_observation "db-1" role_reader ∷ sample_observation "db-2" role_writer ∷ [];
  reason = "";
}

apply_writer_failover_fast_path-FastPath_example :
    IsFastPath sample_resource moved_discovery (ok (("db-2", 1) ∷ [])) (plan sample_input) (
      apply_writer_failover_fast_path sample_resource moved_discovery
        (ok (("db-2", 1) ∷ []))
        (plan sample_input))
apply_writer_failover_fast_path-FastPath_example =
    apply_writer_failover_fast_path-FastPath sample_resource moved_discovery (ok (("db-2", 1) ∷ []))
      (plan sample_input)

abbrev untrusted_input : Input
untrusted_input = record sample_input { discovery_trusted = false }

abbrev untrusted_discovery : DiscoveryResult
untrusted_discovery = record { trusted = false; instances = []; reason = "" }

-- A hash that tells the names.
abbrev named_shapes : List InstanceApplyShape → String
named_shapes shapes = join (map (λ shape. shape.name) shapes) ","

abbrev noting : List String → String → Answer (List String)
noting names name = ok (names ++ name ∷ [])

untrusted_changes_nothing_example :
    ((plan untrusted_input).membership.writer ≡ last_writer sample_resource)
    × ((plan untrusted_input).membership.reader ≡ last_reader sample_resource)
    × (apply_writer_failover_fast_path sample_resource untrusted_discovery
          (failed "no pods")
          (plan untrusted_input)
        ≡ ok (plan untrusted_input))
    × (should_apply_plan named_shapes sample_resource
          (plan untrusted_input)
          sample_status.missing_instances
          true
          true
          5
          (failed "no drift")
        ≡ ok (false, "frozen"))
    × (missing_instances_for sample_resource untrusted_discovery true 5
        ≡ sample_status.missing_instances)
    × (cleanup_removed_instance_resources noting sample_resource untrusted_discovery []
          sample_status.missing_instances 5
        ≡ ok ([], sample_status.missing_instances))
untrusted_changes_nothing_example =
    untrusted_changes_nothing named_shapes noting untrusted_input untrusted_discovery []
      (failed "no pods") (failed "no drift") true true 5 refl refl

distinct_plans : AreDistinct (map (λ p. p.name) (plan sample_input).instances)
unfolding plan stabilized_plan kept_plan observed_plan gathered observe_all gather plan_for
    previous_for enabled_plan apply_health apply_monitor_thresholds observed_output
    stabilize_writer_membership stabilize_writers preserve_missing_reader_membership
    preserve_missing_readers skips_missing_reader stabilize_reader_membership override_disables
    instance_disabled active_missing sort_by sort_instance_plans replicas_for
    previous_instance_status sprint_int32 progress
distinct_plans = (refl, (refl, (refl, tt)))

role_ready_condition-any_example :
    ((role_ready_condition (plan sample_input) role_writer).0 == condition_true)
    ≡ any
        (λ member.
          any
            (λ p. not p.disabled && (p.name == member && int32_pos p.ready_replicas))
            (plan sample_input).instances)
        (plan sample_input).membership.writer
role_ready_condition-any_example =
    role_ready_condition-any (plan sample_input) role_writer distinct_plans

role_service_summary-adds_up_example :
    let summary =
      role_service_summary "pool-reader"
        (plan sample_input).instances
        ("db-2" ∷ "db-4" ∷ [])
        role_reader in
    (summary.total_candidates ≡ int32_add summary.healthy summary.unhealthy)
    × (summary.ready_members ≤ 2)
role_service_summary-adds_up_example =
    role_service_summary-adds_up "pool-reader" (plan sample_input).instances ("db-2" ∷ "db-4" ∷ [])
      role_reader

-- Deployments in a map; an update of one that is not there adds it.
abbrev Deployments : Type 0
Deployments = List (String × Labels)

abbrev deployments_api : DeploymentApi Deployments
deployments_api = record {
  get = λ s name. ok (lookup name s);
  update = λ s name annotations. ok (insert name annotations s);
}

state_of : {S : Type 0} → S → Answer S → S
state_of s (ok s') = s'
state_of s (failed error) = s

ok_if : {A : Type 0} (b : Bool) (x y : A) → ok (if b then x else y) ≡ (if b then ok x else ok y)
ok_if true x y = refl
ok_if false x y = refl

deployments_api-IsDeploymentStore : IsDeploymentStore deployments_api
unfolding state_of
deployments_api-IsDeploymentStore = record {
  get-updated = λ {s} {s'} {name} {annotations} k e.
      ap (λ t. ok (lookup k t)) (sym (ap (state_of s) e))
      ∙ ap ok (lookup-insert name k annotations s)
      ∙ ok_if (name == k) (some annotations) (lookup k s);
}

restart_instance_deployments-RestartedAfter_example :
    RestartedAfter deployments_api "token"
      (map (λ name. sample_resource.name ^^ "-" ^^ name) ("db-2" ∷ "db-1" ∷ []))
      (restart_instance_deployments deployments_api
        (λ pool name. pool ^^ "-" ^^ name)
        sample_resource
        (("pool-db-1", []) ∷ [])
        ("db-2" ∷ "db-1" ∷ [])
        "token")
restart_instance_deployments-RestartedAfter_example =
    restart_instance_deployments-RestartedAfter deployments_api (λ pool name. pool ^^ "-" ^^ name)
      sample_resource (("pool-db-1", []) ∷ []) ("db-2" ∷ "db-1" ∷ []) "token"
      deployments_api-IsDeploymentStore
