-- ===== src/Controller/Apply.antt =====
-- internal/controller/reconciler.go: what a plan in force makes of the cluster. `apply` renders one object, sets
-- its owner and creates or updates it; it and `delete` are arguments.
use pgbouncer_aurora_operato.Base.{
  if◌then◌else◌, is_empty, contains, lookup, Answer, ok, ◌>>=◌, ℕ, String, Bool, false, not, ◌&&◌,
  ◌||◌, Option, none, some, List, [], ◌∷◌, ◌==◌,
}
use pgbouncer_aurora_operato.Api.{PgBouncerAurora, Role, role_writer, role_reader}
use pgbouncer_aurora_operato.Domain.{InstanceObservation, InstancePlan}
use pgbouncer_aurora_operato.Planner.{plan, Output}
use pgbouncer_aurora_operato.Controller.Labels.{label_instance, label_writer, label_reader}
use pgbouncer_aurora_operato.Controller.Pods.{active_plan_instances}
use pgbouncer_aurora_operato.Controller.Removal.{
  service, ignore_not_found, DeleteCall, delete_instance_resources,
}
use pgbouncer_aurora_operato.Controller.Summary.{service_name_for_role}

-- The objects that are applied.
pub data AppliedObject : Type 0 where
  instance_config_map : InstanceObservation → AppliedObject
  instance_deployment : InstancePlan → String → AppliedObject
  instance_service : InstancePlan → AppliedObject
  role_service : Role → AppliedObject

pub record ServicePort : Type 0 where
  pub name : String
  pub protocol : String
  pub port : ℕ
  pub target_port : String
  pub app_protocol : Option String
  pub node_port : ℕ

-- What the server fills in, apart from the ports.
pub record Allocated : Type 0 where
  pub cluster_ip : String
  pub cluster_ips : List String
  pub ip_families : List String
  pub ip_family_policy : Option String
  pub load_balancer_class : Option String
  pub health_check_node_port : ℕ

-- What the clean-up, the drift check and the copying of a service read.
pub record Service : Type 0 where
  pub name : String
  pub labels : List (String × String)
  pub annotations : List (String × String)
  pub type : String
  pub selector : List (String × String)
  pub ports : List ServicePort
  pub external_traffic_policy : String
  pub allocated : Allocated

abbrev pub label_service_role : String
label_service_role = "pgbouncer-aurora.io/service-role"

abbrev pub value_at : String → List (String × String) → String
value_at key values = elim (lookup key values) [ none ↦ "" | some value ↦ value ]

module _ (role_service_name : String → String → String) where
  unfoldable pub is_legacy_role_service : PgBouncerAurora → Service → Bool
  is_legacy_role_service resource item =
      if not (value_at label_instance item.labels == "")
      then false
      else value_at label_writer item.selector == "true"
        || value_at label_reader item.selector == "true"
        || item.name == service_name_for_role role_service_name resource role_writer
        || item.name == service_name_for_role role_service_name resource role_reader

  -- The services that stay: those of an instance, those that are not of a role, and those of the two roles.
  unfoldable pub keeps_service : PgBouncerAurora → Service → Bool
  keeps_service resource item =
      not (value_at label_instance item.labels == "")
      || (value_at label_service_role item.labels == ""
          && not (is_legacy_role_service resource item))
      || contains
          (service_name_for_role role_service_name resource role_writer
            ∷ service_name_for_role role_service_name resource role_reader
            ∷ [])
          item.name

  module _ {S : Type 0} (delete : DeleteCall S) where
    -- The loop over the services that the API lists.
    unfoldable pub delete_stale : PgBouncerAurora → S → List Service → Answer S
    delete_stale resource s [] = ok s
    delete_stale resource s (item ∷ rest) =
        let kept = delete_stale resource s rest in
        let gone =
          ignore_not_found (delete s service item.name) >>= λ s'. delete_stale resource s' rest in
        if keeps_service resource item then kept else gone

    unfoldable pub cleanup_stale_role_services :
        PgBouncerAurora → S → Answer (List Service) → Answer S
    cleanup_stale_role_services resource s services = services >>= delete_stale resource s

module _ {S : Type 0} (apply : PgBouncerAurora → S → AppliedObject → Answer S) where
  -- The objects one after the other, up to the first error.
  unfoldable pub apply_all : PgBouncerAurora → S → List AppliedObject → Answer S
  apply_all resource s [] = ok s
  apply_all resource s (object ∷ objects) =
      apply resource s object >>= λ s'. apply_all resource s' objects

-- The objects of the active instances, in the order of the loop.
unfoldable pub instance_objects : String → List InstancePlan → List AppliedObject
instance_objects auth_file_hash [] = []
instance_objects auth_file_hash (instance_plan ∷ rest) =
    instance_config_map instance_plan.observation
    ∷ instance_deployment instance_plan auth_file_hash
    ∷ instance_service instance_plan
    ∷ instance_objects auth_file_hash rest

abbrev pub role_objects : List AppliedObject
role_objects = role_service role_writer ∷ role_service role_reader ∷ []

module _ {S : Type 0} (delete_resources : S → String → Answer S) where
  unfoldable pub cleanup_disabled_instance_resources : S → List InstancePlan → Answer S
  cleanup_disabled_instance_resources s [] = ok s
  cleanup_disabled_instance_resources s (instance_plan ∷ rest) =
      let kept = cleanup_disabled_instance_resources s rest in
      let gone = delete_resources s instance_plan.name >>= λ s'.
      cleanup_disabled_instance_resources s' rest in
      if not instance_plan.disabled then kept else gone

-- The calls of the API server that an apply makes. `auth_file_hash` is read only with active instances.
pub record ApplyApi (S : Type 0) : Type 0 where
  pub apply : PgBouncerAurora → S → AppliedObject → Answer S
  pub services : S → Answer (List Service)
  pub delete : DeleteCall S
  pub auth_file_hash : S → String

module _ {S : Type 0} (api : ApplyApi S) (role_service_name : String → String → String)
    (resource_name : String → String → String) where
  unfoldable pub apply_desired : PgBouncerAurora → Output → S → Answer S
  apply_desired resource plan s = do
    let active = active_plan_instances plan.instances
    let hash = if is_empty active then "" else api.auth_file_hash s
    s₁ ← apply_all api.apply resource s (instance_objects hash active)
    s₂ ← apply_all api.apply resource s₁ role_objects
    s₃ ← cleanup_stale_role_services role_service_name api.delete resource s₂ (api.services s₂)
    cleanup_disabled_instance_resources
        (delete_instance_resources api.delete resource_name resource) s₃ plan.instances
