-- ===== src/Controller/Tests/Storing.antt =====
-- The status after a reconcile, at a concrete input.
use pgbouncer_aurora_operato.Base.{
  sprint_int32, sort_by, contains, String, ◌^^◌, ◌≡◌, refl, true, false,
}
use pgbouncer_aurora_operato.Samples.{
  sample_status, sample_resource, sample_discovered, sample_input,
}
use pgbouncer_aurora_operato.Planner.{
  sort_instance_plans, observed_output, gathered, observed_plan, kept_plan, stabilized_plan, plan,
  override_disables, instance_disabled, replicas_for, previous_instance_status, active_missing,
  progress, apply_health, apply_monitor_thresholds, previous_for, enabled_plan, plan_for, gather,
  observe_all, stabilize_writers, stabilize_writer_membership, skips_missing_reader,
  preserve_missing_readers, preserve_missing_reader_membership, stabilize_reader_membership,
}
use pgbouncer_aurora_operato.Controller.Membership.Sets.{AreDistinct}
use pgbouncer_aurora_operato.Controller.Stored.{Results, Hashes, updated_status}
use pgbouncer_aurora_operato.Controller.Stored.Agrees.{updated_status-agrees}

abbrev sample_results : Results
sample_results = record {
  resource = sample_resource;
  discovery = record { trusted = true; instances = sample_discovered; reason = "" };
  plan = plan sample_input;
  missing_instances = sample_status.missing_instances;
  discovery_ran = true;
  discovery_failed = false;
  monitor_ran = true;
  now = 5000000000;
}

abbrev sample_hashes : Hashes
sample_hashes = record {
  topology = λ _. "topology";
  missing = λ _. "missing";
  membership = λ _. "membership";
}

abbrev service_name : String → String → String
service_name pool name = pool ^^ "-" ^^ name

live_plan : (plan sample_input).frozen ≡ false
unfolding plan stabilized_plan kept_plan observed_plan gathered observe_all gather plan_for
    previous_for enabled_plan apply_health apply_monitor_thresholds observed_output
    stabilize_writer_membership stabilize_writers preserve_missing_reader_membership
    preserve_missing_readers skips_missing_reader stabilize_reader_membership override_disables
    instance_disabled active_missing sort_by sort_instance_plans replicas_for
    previous_instance_status sprint_int32 progress
live_plan = refl

sample_members :
    AreDistinct (plan sample_input).membership.writer
    × AreDistinct (plan sample_input).membership.reader
unfolding plan stabilized_plan kept_plan observed_plan gathered observe_all gather plan_for
    previous_for enabled_plan apply_health apply_monitor_thresholds observed_output
    stabilize_writer_membership stabilize_writers preserve_missing_reader_membership
    preserve_missing_readers skips_missing_reader stabilize_reader_membership override_disables
    instance_disabled active_missing sort_by sort_instance_plans replicas_for
    previous_instance_status sprint_int32 progress
sample_members = ((refl, tt), (refl, (refl, tt)))

updated_status-agrees_example :
    let stored =
      (updated_status sample_hashes service_name
        (λ conditions. conditions)
        sample_results
        sample_status).last_applied_membership in
    (contains stored.writer "db-1" ≡ contains (plan sample_input).membership.writer "db-1")
    × (contains stored.reader "db-1" ≡ contains (plan sample_input).membership.reader "db-1")
updated_status-agrees_example =
    updated_status-agrees sample_hashes service_name (λ conditions. conditions) sample_results
      sample_status live_plan sample_members.0 sample_members.1 "db-1"
