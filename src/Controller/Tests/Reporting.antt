-- ===== src/Controller/Tests/Reporting.antt =====
-- The conditions, the zones and the readiness of pods, at concrete inputs.
use pgbouncer_aurora_operato.Base.{
  count, int32_mod, trim_space, ◌%◌, String, ◌≡◌, refl, true, false, none, [], ◌∷◌, ◌==◌,
}
use pgbouncer_aurora_operato.Api.{PgBouncerAurora, role_writer, condition_false}
use pgbouncer_aurora_operato.Domain.{DiscoveryResult}
use pgbouncer_aurora_operato.Kubernetes.{Pod}
use pgbouncer_aurora_operato.Samples.{
  sample_spec, sample_status, sample_resource, sample_observation, sample_input,
}
use pgbouncer_aurora_operato.Planner.{plan, Output}
use pgbouncer_aurora_operato.Controller.Labels.{label_instance}
use pgbouncer_aurora_operato.Controller.Zones.{
  first_non_empty, required_node_affinity_conflicts, apply_zone_aware_conflict_policy,
}
use pgbouncer_aurora_operato.Controller.Zones.Policy.{apply_zone_aware_conflict_policy-frozen}
use pgbouncer_aurora_operato.Controller.Reported.{conditions_for}
use pgbouncer_aurora_operato.Controller.Reported.Degraded.{
  status_of, all_well, conditions_for-degraded,
}
use pgbouncer_aurora_operato.Controller.Health.{
  pod_ready, count_ready, ready_pod_counts, readiness_differs, pod_readiness_changed,
}
use pgbouncer_aurora_operato.Controller.Health.Changed.{
  stored_ready, is_ready_of, pod_readiness_changed-stored,
}

abbrev untrusted_discovery : DiscoveryResult
untrusted_discovery = record { trusted = false; instances = []; reason = "no rows" }

conditions_for-degraded_example :
    (status_of "Degraded" (
        conditions_for sample_resource sample_status.conditions untrusted_discovery
          (plan sample_input)
          ""
          5000000000)
      == condition_false)
    ≡ all_well untrusted_discovery (plan sample_input) ""
conditions_for-degraded_example =
    conditions_for-degraded sample_resource sample_status.conditions untrusted_discovery
      (plan sample_input) "" 5000000000

-- A resource whose pods are pinned to one zone, with a policy that forbids conflicts.
abbrev pinned_resource : PgBouncerAurora
pinned_resource = record sample_resource {
  spec = record sample_spec {
    pgbouncer = record (sample_spec.pgbouncer) {
      node_selector = ("topology.kubernetes.io/zone", "zone-a") ∷ [];
    };
    topology_policy = record (sample_spec.topology_policy) {
      zone_aware = record {
        enabled = none;
        enforcement = "";
        topology_key = "";
        conflict_policy = "Fail";
      };
    };
  };
}

abbrev zoned_plan : Output
zoned_plan = record {
  instances =
      record {
        observation = record (sample_observation "db-1" role_writer) {
          availability_zone = "zone-b";
        };
        healthy = true;
        disabled = false;
        reason = "healthy";
        replicas = 1;
        ready_replicas = 1;
        consecutive_failures = 0;
        consecutive_successes = 1;
      }
      ∷ [];
  membership = record { writer = "db-1" ∷ []; reader = [] };
  frozen = false;
  reasons = [];
  reader_fallback_suppressed = false;
  reader_fallback_suppressed_reason = "";
}

apply_zone_aware_conflict_policy-frozen_example :
    ((apply_zone_aware_conflict_policy pinned_resource zoned_plan).frozen ≡ true)
    × ((apply_zone_aware_conflict_policy pinned_resource zoned_plan).instances
        ≡ zoned_plan.instances)
    × ((apply_zone_aware_conflict_policy pinned_resource zoned_plan).membership
        ≡ zoned_plan.membership)
unfolding first_non_empty trim_space required_node_affinity_conflicts
apply_zone_aware_conflict_policy-frozen_example =
    apply_zone_aware_conflict_policy-frozen pinned_resource zoned_plan

abbrev running_pod : String → Pod
running_pod name = record {
  labels = (label_instance, name) ∷ [];
  deleting = false;
  conditions = ("Ready", "True") ∷ [];
}

pod_readiness_changed-stored_example :
    count (is_ready_of "db-2") (running_pod "db-2" ∷ running_pod "db-1" ∷ []) % int32_mod
    ≡ stored_ready sample_status.instances "db-2"
unfolding pod_readiness_changed ready_pod_counts count_ready pod_ready readiness_differs
pod_readiness_changed-stored_example =
    pod_readiness_changed-stored (running_pod "db-2" ∷ running_pod "db-1" ∷ []) sample_resource
      "db-2" refl refl
