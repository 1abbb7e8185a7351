-- ===== src/Controller/Copy.antt =====
-- internal/controller/reconciler.go: what an update makes of a stored object. Owner references, and the labels and
-- annotations of a config map, are left out: the check does not compare them. The body of a pod template is a
-- parameter.
pub mod Settled
mod Tests
use pgbouncer_aurora_operato.Base.{
  ◌=?◌, if◌then◌else◌, is_empty, sprint_int32, trim_space, lookup, insert, erase, ℕ, String, ◌^^◌,
  Bool, not, ◌&&◌, ◌||◌, Option, none, some, List, [], ◌∷◌, ◌==◌,
}
use pgbouncer_aurora_operato.Controller.Restart.{restarted_at_annotation}
use pgbouncer_aurora_operato.Controller.Apply.{ServicePort, Service, value_at}
use pgbouncer_aurora_operato.Controller.Drift.{
  ConfigMap, Deployment, label_dbi_resource_id, deployment_dbi_label, MapTest,
}

pub record PodTemplate (B : Type 0) : Type 0 where
  pub annotations : List (String × String)
  pub body : B

abbrev pub annotation_dbi_resource_id : String
annotation_dbi_resource_id = label_dbi_resource_id

-- `same_body` compares what else stands in two templates, without the defaults of the server; for
-- `Semantic.DeepEqual` no annotations and a nil map are the same.
unfoldable pub pod_template_semantically_equal :
    {B : Type 0} → MapTest → (B → B → Bool) → PodTemplate B → PodTemplate B → Bool
pod_template_semantically_equal same_map same_body existing expected =
    same_map (erase restarted_at_annotation existing.annotations)
      (erase restarted_at_annotation expected.annotations)
    && same_body existing.body expected.body

unfoldable pub copy_config_map : ConfigMap → ConfigMap → ConfigMap
copy_config_map existing desired = record existing {
  data_values = desired.data_values;
  binary_data = desired.binary_data;
}

-- A value that stood in the map before, where the rendered object has none.
abbrev pub preserve_value :
    String → String → String → List (String × String) → List (String × String)
preserve_value key rendered previous values =
    if rendered == "" && not (previous == "") then insert key previous values else values

unfoldable pub deployment_dbi_identity : {T : Type 0} → Deployment T → String × String
deployment_dbi_identity deployment = (
  deployment_dbi_label deployment,
  trim_space (value_at annotation_dbi_resource_id deployment.annotations),
)

unfoldable pub preserve_deployment_dbi_identity :
    {T : Type 0} → Deployment T → Deployment T → String → String → Deployment T
preserve_deployment_dbi_identity target source previous_label previous_annotation =
    let source_annotation = trim_space (value_at annotation_dbi_resource_id source.annotations) in
    record target {
      labels =
          preserve_value label_dbi_resource_id (deployment_dbi_label source) previous_label
            target.labels;
      annotations =
          preserve_value annotation_dbi_resource_id source_annotation previous_annotation
            target.annotations;
    }

unfoldable pub preserve_restart_annotation :
    {B : Type 0} → Deployment (PodTemplate B) → String → Deployment (PodTemplate B)
preserve_restart_annotation target restart_token =
    let template = target.template in
    let values = template.annotations in
    record target {
      template = record template {
        annotations =
            if restart_token == ""
            then values
            else insert restarted_at_annotation restart_token values;
      };
    }

unfoldable pub copy_deployment :
    {B : Type 0}
    → Deployment (PodTemplate B)
    → Deployment (PodTemplate B)
    → Deployment (PodTemplate B)
copy_deployment existing desired =
    let identity = deployment_dbi_identity existing in
    let restart_token = value_at restarted_at_annotation existing.template.annotations in
    let target = record existing {
      labels = desired.labels;
      annotations = desired.annotations;
      replicas = desired.replicas;
      strategy = desired.strategy;
      template = desired.template;
    } in
    preserve_restart_annotation
      (preserve_deployment_dbi_identity target desired identity.0 identity.1) restart_token

unfoldable pub service_port_key : ServicePort → String
service_port_key port =
    if not (port.name == "")
    then "name:" ^^ port.name
    else port.protocol ^^ ":" ^^ sprint_int32 port.port

unfoldable pub node_ports_from : List (String × ℕ) → List ServicePort → List (String × ℕ)
node_ports_from out [] = out
node_ports_from out (port ∷ ports) =
    node_ports_from
      (if port.node_port =? 0 then out else insert (service_port_key port) port.node_port out) ports

abbrev pub node_port_or : ℕ → Option ℕ → ℕ
node_port_or given none = given
node_port_or given (some node_port) = if node_port =? 0 then given else node_port

unfoldable pub with_node_ports : List (String × ℕ) → List ServicePort → List ServicePort
with_node_ports node_ports [] = []
with_node_ports node_ports (port ∷ ports) =
    record port {
      node_port = node_port_or port.node_port (lookup (service_port_key port) node_ports);
    }
    ∷ with_node_ports node_ports ports

unfoldable pub preserve_service_node_ports : List ServicePort → List ServicePort → List ServicePort
preserve_service_node_ports target allocated = with_node_ports (node_ports_from [] allocated) target

unfoldable pub should_preserve_node_ports : Service → Bool
should_preserve_node_ports target = target.type == "NodePort" || target.type == "LoadBalancer"

unfoldable pub should_preserve_health_check_node_port : Service → Bool
should_preserve_health_check_node_port target =
    target.type == "LoadBalancer" && target.external_traffic_policy == "Local"

-- A pointer that was set stays so.
abbrev pub kept_pointer : Option String → Option String → Option String
kept_pointer none given = given
kept_pointer (some value) given = some value

unfoldable pub preserve_service_allocated_fields : Service → Service → Service
preserve_service_allocated_fields target stored =
    let old = stored.allocated in
    let new = target.allocated in
    record target {
      ports =
          if should_preserve_node_ports target
          then preserve_service_node_ports target.ports stored.ports
          else target.ports;
      allocated = record {
        cluster_ip = if old.cluster_ip == "" then new.cluster_ip else old.cluster_ip;
        cluster_ips = if old.cluster_ip == "" then new.cluster_ips else old.cluster_ips;
        ip_families = if is_empty old.ip_families then new.ip_families else old.ip_families;
        ip_family_policy = kept_pointer old.ip_family_policy new.ip_family_policy;
        load_balancer_class = kept_pointer old.load_balancer_class new.load_balancer_class;
        health_check_node_port =
            if should_preserve_health_check_node_port target
              && not (old.health_check_node_port =? 0)
            then old.health_check_node_port
            else new.health_check_node_port;
      };
    }

unfoldable pub copy_service : Service → Service → Service
copy_service existing desired =
    preserve_service_allocated_fields (record desired { name = existing.name }) existing
