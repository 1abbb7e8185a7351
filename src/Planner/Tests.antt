-- ===== src/Planner/Tests.antt =====
-- A planning round, and each theorem about the planner at a concrete input.
use mathlib.Core.List.{Forall₂, Perm}
use pgbouncer_aurora_operato.Base.{
  length, sprint_int32, sort_by, IsSortedBy, contains, ◌≤◌, ◌≡◌, refl, ap, true, ◌||◌, List, [],
  ◌∷◌, arith,
}
use pgbouncer_aurora_operato.Api.{role_writer}
use pgbouncer_aurora_operato.Domain.{InstancePlan}
use pgbouncer_aurora_operato.Planner.{
  sort_instance_plans, observed_output, gathered, observed_plan, kept_plan, stabilized_plan, plan,
  override_disables, instance_disabled, replicas_for, previous_instance_status, active_missing,
  progress, apply_health, apply_monitor_thresholds, previous_for, enabled_plan, plan_for, gather,
  observe_all, stabilize_writers, stabilize_writer_membership, skips_missing_reader,
  preserve_missing_readers, preserve_missing_reader_membership, reader_empty_fallback_enabled,
  stabilize_reader_membership,
}
use pgbouncer_aurora_operato.Samples.{
  sample_status, sample_resource, sample_discovered, sample_input,
}
use pgbouncer_aurora_operato.Planner.Writers.{plan-writer-le-one}
use pgbouncer_aurora_operato.Planner.Serving.{is_serving}
use pgbouncer_aurora_operato.Planner.Readers.{is_wanted_reader}
use pgbouncer_aurora_operato.Planner.Fallback.{ReaderOutcome, plan-ReaderOutcome}
use pgbouncer_aurora_operato.Planner.Justified.{is_kept_writer, plan_writer_justified}
use pgbouncer_aurora_operato.Planner.Plans.{Places, plan_covers_discovered}

-- `db-3` is switched off, `db-2` has failed once, and `db-4` has been missing once.
sample_plan :
    (plan sample_input).membership ≡ record { writer = "db-1" ∷ []; reader = "db-2" ∷ "db-4" ∷ [] }
unfolding plan stabilized_plan kept_plan observed_plan gathered observe_all gather plan_for
    previous_for enabled_plan apply_health apply_monitor_thresholds observed_output
    stabilize_writer_membership stabilize_writers preserve_missing_reader_membership
    preserve_missing_readers skips_missing_reader stabilize_reader_membership override_disables
    instance_disabled active_missing sort_by sort_instance_plans replicas_for
    previous_instance_status sprint_int32 progress
sample_plan = refl

plan-writer-le-one_example : length (plan sample_input).membership.writer ≤ 1
plan-writer-le-one_example = plan-writer-le-one sample_input (omega arith)

plan-ReaderOutcome_example :
    ReaderOutcome
      (is_wanted_reader sample_input)
      (plan sample_input).reader_fallback_suppressed
      (reader_empty_fallback_enabled sample_resource)
      (plan sample_input).membership.writer
      (plan sample_input).membership.reader
plan-ReaderOutcome_example = plan-ReaderOutcome sample_input refl

plan_writer_justified_example :
    (is_serving role_writer (plan sample_input).instances "db-1"
      || is_kept_writer sample_resource sample_status.missing_instances "db-1")
    ≡ true
plan_writer_justified_example =
    plan_writer_justified sample_input refl "db-1" (ap (λ m. contains m.writer "db-1") sample_plan)

plan_covers_discovered_example :
    (plans : List InstancePlan) × Forall₂ (Places sample_input) sample_discovered plans
    × Perm (plan sample_input).instances plans
    × IsSortedBy (λ plan. plan.name) (plan sample_input).instances
plan_covers_discovered_example = plan_covers_discovered sample_input refl
