-- ===== src/Controller/Drift/Tests.antt =====
-- The check of the drift, at concrete inputs.
use pgbouncer_aurora_operato.Base.{
  trim_space, Answer, ok, ℕ, String, ◌^^◌, ◌≡◌, refl, Bool, true, false, ◌&&◌, Option, none, some,
  List, [], ◌∷◌, ◌==◌,
}
use pgbouncer_aurora_operato.Controller.Drift.{
  ConfigMap, Deployment, DriftApi, cached_plan_needs_apply, config_map_differs, deployment_differs,
  config_map_drifted, deployment_template_drifted, service_drifted, stale_role_service_exists,
  missing_expected_name, by_name, expected_instance_names, expected_service_names,
  service_spec_drifted, service_ports_equal_ignoring_allocated, int32_value,
  deployment_dbi_metadata_drifted,
}
use pgbouncer_aurora_operato.Controller.Drift.Silent.{IsCurrent, cached_plan_needs_apply-IsCurrent}
use pgbouncer_aurora_operato.Controller.Apply.{Service, label_service_role, is_legacy_role_service}
use pgbouncer_aurora_operato.Controller.Summary.{service_name_for_role}
use pgbouncer_aurora_operato.Controller.Pods.{
  pod_membership_label_drifted, is_exact, desired_labels, instance_role_set, instance_roles_from,
}
use pgbouncer_aurora_operato.Controller.Labels.{
  membership_labels_exact, bool_label_exact_in, bool_membership_label_exact, role_label_exact_in,
  role_membership_label_exact, label_instance, label_role, label_writer,
}
use pgbouncer_aurora_operato.Planner.{Output}
use pgbouncer_aurora_operato.Api.{Role, role_writer, role_reader}
use pgbouncer_aurora_operato.Samples.{sample_resource, sample_observation}

abbrev running_plan : Output
running_plan = record {
  instances =
      record {
        observation = sample_observation "db-1" role_writer;
        healthy = true;
        disabled = false;
        reason = "healthy";
        replicas = 1;
        ready_replicas = 1;
        consecutive_failures = 0;
        consecutive_successes = 1;
      }
      ∷ [];
  membership = record { writer = "db-1" ∷ []; reader = [] };
  frozen = false;
  reasons = [];
  reader_fallback_suppressed = false;
  reader_fallback_suppressed_reason = "";
}

same_pairs : List (String × String) → List (String × String) → Bool
same_pairs [] [] = true
same_pairs ((k, v) ∷ left) ((j, w) ∷ right) = k == j && v == w && same_pairs left right
same_pairs left right = false

abbrev joined : String → String → String
joined pool name = pool ^^ "-" ^^ name

abbrev stored_config_map : String → ConfigMap
stored_config_map name = record {
  name = joined sample_resource.name name;
  data_values = ("pgbouncer.ini", "[databases]") ∷ [];
  binary_data = [];
}

abbrev stored_deployment : Option ℕ → String → Deployment String
stored_deployment replicas name = record {
  name = joined sample_resource.name name;
  labels = [];
  annotations = [];
  replicas = replicas;
  strategy = "RollingUpdate";
  template = "pgbouncer";
}

abbrev stored_service : String → List (String × String) → Service
stored_service name labels = record {
  name = joined sample_resource.name name;
  labels = labels;
  annotations = [];
  type = "ClusterIP";
  selector = ("app", name) ∷ [];
  ports =
      record {
        name = "pgbouncer";
        protocol = "TCP";
        port = 6432;
        target_port = "6432";
        app_protocol = none;
        node_port = 0;
      }
      ∷ [];
  external_traffic_policy = "";
  allocated = record {
    cluster_ip = "";
    cluster_ips = [];
    ip_families = [];
    ip_family_policy = none;
    load_balancer_class = none;
    health_check_node_port = 0;
  };
}

abbrev instance_service_of : String → Service
instance_service_of name = stored_service name ((label_instance, name) ∷ [])

abbrev role_service_of : Role → Service
role_service_of role = stored_service role ((label_service_role, role) ∷ [])

abbrev running_api : List Service → Option ℕ → DriftApi String
running_api services replicas = record {
  config_maps = ok (stored_config_map "db-1" ∷ []);
  deployments = ok (stored_deployment replicas "db-1" ∷ []);
  services = ok services;
  pods =
      ok (((label_instance, "db-1") ∷ (label_role, "writer") ∷ (label_writer, "true") ∷ []) ∷ []);
  expected_config_map = λ instance_plan. stored_config_map instance_plan.name;
  expected_deployment = λ instance_plan. stored_deployment (some 1) instance_plan.name;
  expected_service = λ instance_plan. instance_service_of instance_plan.name;
  expected_role_service = role_service_of;
  same_map = same_pairs;
  same_template = ◌==◌;
}

abbrev all_services : List Service
all_services =
    instance_service_of "db-1" ∷ role_service_of role_writer ∷ role_service_of role_reader ∷ []

abbrev checked : List Service → Option ℕ → Answer (Bool × String)
checked services replicas =
    cached_plan_needs_apply (running_api services replicas) joined joined sample_resource
      running_plan

nothing_to_apply : checked all_services (some 1) ≡ ok (false, "no-change")
unfolding config_map_differs deployment_differs cached_plan_needs_apply config_map_drifted
    deployment_template_drifted service_drifted stale_role_service_exists missing_expected_name
    by_name expected_instance_names expected_service_names service_spec_drifted
    service_ports_equal_ignoring_allocated int32_value deployment_dbi_metadata_drifted
    service_name_for_role is_legacy_role_service pod_membership_label_drifted is_exact
    desired_labels instance_role_set instance_roles_from membership_labels_exact bool_label_exact_in
    bool_membership_label_exact role_label_exact_in role_membership_label_exact trim_space
    same_pairs
nothing_to_apply = refl

cached_plan_needs_apply-IsCurrent_example :
    IsCurrent (running_api all_services (some 1)) joined joined sample_resource running_plan
cached_plan_needs_apply-IsCurrent_example =
    cached_plan_needs_apply-IsCurrent (running_api all_services (some 1)) joined joined
      sample_resource running_plan "no-change" nothing_to_apply
