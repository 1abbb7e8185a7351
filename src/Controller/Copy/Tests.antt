-- ===== src/Controller/Copy/Tests.antt =====
-- The copying of rendered objects, at concrete inputs.
use pgbouncer_aurora_operato.Base.{
  and_intro, trim_space, lookup, ℕ, String, ◌≡◌, refl, subst, Bool, true, false, ◌&&◌, Option, none,
  some, List, [], ◌∷◌, ◌==◌, eq_refl,
}
use pgbouncer_aurora_operato.Controller.Apply.{Service}
use pgbouncer_aurora_operato.Controller.Drift.{
  ConfigMap, Deployment, label_dbi_resource_id, deployment_dbi_label, config_map_differs,
  deployment_differs, service_spec_drifted,
}
use pgbouncer_aurora_operato.Controller.Copy.{
  PodTemplate, pod_template_semantically_equal, copy_config_map, deployment_dbi_identity,
  preserve_deployment_dbi_identity, preserve_restart_annotation, copy_deployment, service_port_key,
  node_ports_from, with_node_ports, preserve_service_node_ports, should_preserve_node_ports,
  should_preserve_health_check_node_port, preserve_service_allocated_fields, copy_service,
}
use pgbouncer_aurora_operato.Controller.Copy.Settled.{copy-settled}
use pgbouncer_aurora_operato.Controller.Restart.{restarted_at_annotation}

abbrev same_value : Option String → Option String → Bool
same_value none none = true
same_value (some value) (some other) = value == other
same_value value other = false

-- The keys of a list have the same values in two maps.
abbrev agree_on : List (String × String) → List (String × String) → List (String × String) → Bool
agree_on [] a b = true
agree_on ((k, v) ∷ rest) a b = same_value (lookup k a) (lookup k b) && agree_on rest a b

abbrev same_values : List (String × String) → List (String × String) → Bool
same_values a b = agree_on a a b && agree_on b a b

same_value_refl : (o : Option String) → same_value o o ≡ true
same_value_refl none = refl
same_value_refl (some value) = eq_refl value

agree_on_same :
    (keys a b : List (String × String))
    → ((k : String) → lookup k a ≡ lookup k b)
    → agree_on keys a b ≡ true
agree_on_same [] a b same = refl
agree_on_same ((k, v) ∷ rest) a b same =
    and_intro
      (subst (λ o. same_value (lookup k a) o ≡ true) (same k) (same_value_refl (lookup k a)))
      (agree_on_same rest a b same)

same_values_same :
    (a b : List (String × String))
    → ((k : String) → lookup k a ≡ lookup k b)
    → same_values a b ≡ true
same_values_same a b same = and_intro (agree_on_same a a b same) (agree_on_same b a b same)

abbrev config_map_with : String → ConfigMap
config_map_with text = record {
  name = "pool-db-1";
  data_values = ("pgbouncer.ini", text) ∷ [];
  binary_data = [];
}

-- A deployment with an identity of the machine and a restart, or without.
abbrev deployment_with :
    List (String × String) → List (String × String) → Deployment (PodTemplate String)
deployment_with labels restarts = record {
  name = "pool-db-1";
  labels = labels;
  annotations = labels;
  replicas = some 2;
  strategy = "RollingUpdate";
  template = record { annotations = restarts; body = "pgbouncer" };
}

abbrev service_with : String → ℕ → Service
service_with address node_port = record {
  name = "pool-writer";
  labels = [];
  annotations = [];
  type = "LoadBalancer";
  selector = ("pgbouncer-aurora.io/member-writer", "true") ∷ [];
  ports =
      record {
        name = "pgbouncer";
        protocol = "TCP";
        port = 6432;
        target_port = "pgbouncer";
        app_protocol = none;
        node_port = node_port;
      }
      ∷ [];
  external_traffic_policy = "Local";
  allocated = record {
    cluster_ip = address;
    cluster_ips = [];
    ip_families = [];
    ip_family_policy = none;
    load_balancer_class = none;
    health_check_node_port = node_port;
  };
}

abbrev stored_deployment : Deployment (PodTemplate String)
stored_deployment =
    deployment_with ((label_dbi_resource_id, "db-A") ∷ []) ((restarted_at_annotation, "token") ∷ [])

identity_and_restart_stay :
    copy_deployment stored_deployment (deployment_with [] []) ≡ stored_deployment
unfolding copy_deployment preserve_restart_annotation preserve_deployment_dbi_identity
    deployment_dbi_identity trim_space
identity_and_restart_stay = refl

new_identity :
    deployment_dbi_label (
      copy_deployment stored_deployment (deployment_with ((label_dbi_resource_id, "db-B") ∷ []) []))
    ≡ "db-B"
unfolding copy_deployment preserve_restart_annotation preserve_deployment_dbi_identity
    deployment_dbi_identity trim_space
new_identity = refl

allocated_fields_stay :
    copy_service (service_with "10.0.0.1" 30001) (service_with "" 0) ≡ service_with "10.0.0.1" 30001
unfolding copy_service preserve_service_allocated_fields preserve_service_node_ports node_ports_from
    with_node_ports service_port_key should_preserve_node_ports
    should_preserve_health_check_node_port
allocated_fields_stay = refl

copy-settled_example :
    (config_map_differs same_values
        (copy_config_map (config_map_with "old") (config_map_with "new"))
        (config_map_with "new")
      ≡ false)
    × (deployment_differs
          (pod_template_semantically_equal same_values ◌==◌)
          (copy_deployment stored_deployment (deployment_with [] []))
          (deployment_with [] [])
        ≡ false)
    × (service_spec_drifted same_values
          (copy_service (service_with "10.0.0.1" 30001) (service_with "" 0))
          (service_with "" 0)
        ≡ false)
copy-settled_example =
    copy-settled same_values ◌==◌ same_values_same eq_refl (config_map_with "old")
      (config_map_with "new") stored_deployment (deployment_with [] [])
      (service_with "10.0.0.1" 30001) (service_with "" 0)
