-- ===== src/Controller/Drift.antt =====
-- internal/controller/reconciler.go: whether the objects of the cluster are those of the plan. The lists of the
-- server, the rendered objects, the equality of maps and that of pod templates are arguments.
mod Tests
pub mod Agrees
pub mod Silent
use pgbouncer_aurora_operato.Base.{
  ◌=?◌, if◌then◌else◌, any, trim_space, contains, lookup, insert, Answer, ok, ◌>>=◌, ℕ, String,
  ◌^^◌, Bool, true, false, not, ◌&&◌, ◌||◌, Option, none, some, List, [], ◌∷◌, ◌++◌, map, ◌==◌,
}
use pgbouncer_aurora_operato.Api.{PgBouncerAurora, Role, role_writer, role_reader}
use pgbouncer_aurora_operato.Domain.{InstancePlan}
use pgbouncer_aurora_operato.Planner.{plan, Output}
use pgbouncer_aurora_operato.Controller.Labels.{label_instance}
use pgbouncer_aurora_operato.Controller.Pods.{active_plan_instances, pod_membership_label_drifted}
use pgbouncer_aurora_operato.Controller.Summary.{service_name_for_role}
use pgbouncer_aurora_operato.Controller.Apply.{
  ServicePort, Service, label_service_role, value_at, is_legacy_role_service,
}

pub record ConfigMap : Type 0 where
  pub name : String
  pub data_values : List (String × String)
  pub binary_data : List (String × String)

pub record Deployment (T : Type 0) : Type 0 where
  pub name : String
  pub labels : List (String × String)
  pub annotations : List (String × String)
  pub replicas : Option ℕ
  pub strategy : String
  pub template : T

abbrev pub label_dbi_resource_id : String
label_dbi_resource_id = "pgbouncer-aurora.io/dbi-resource-id"

-- `byName[name]`: the last object of the name.
unfoldable pub by_name {ℓ} :
    {A : Type ℓ} → (A → String) → List A → List (String × A) → List (String × A)
by_name name [] out = out
by_name name (item ∷ rest) out = by_name name rest (insert (name item) item out)

-- Some instance has an object that differs; those without one are passed over.
abbrev pub drifted_from {ℓ} : {A : Type ℓ} → (A → Bool) → Option A → Bool
drifted_from differs none = false
drifted_from differs (some existing) = differs existing

unfoldable pub int32_value : Option ℕ → ℕ
int32_value none = 0
int32_value (some value) = value

abbrev pub same_app_protocol : Option String → Option String → Bool
same_app_protocol none none = true
same_app_protocol (some left) (some right) = left == right
same_app_protocol left right = false

unfoldable pub service_ports_equal_ignoring_allocated : List ServicePort → List ServicePort → Bool
service_ports_equal_ignoring_allocated [] [] = true
service_ports_equal_ignoring_allocated (left ∷ lefts) (right ∷ rights) =
    left.name == right.name
    && left.protocol == right.protocol
    && left.port =? right.port
    && left.target_port == right.target_port
    && same_app_protocol left.app_protocol right.app_protocol
    && service_ports_equal_ignoring_allocated lefts rights
service_ports_equal_ignoring_allocated lefts rights = false

abbrev pub deployment_dbi_label : {T : Type 0} → Deployment T → String
deployment_dbi_label deployment = trim_space (value_at label_dbi_resource_id deployment.labels)

-- `deploymentDbiLabelBackfillNeeded` or `deploymentDbiIdentityChanged`.
unfoldable pub deployment_dbi_metadata_drifted : {T : Type 0} → Deployment T → Deployment T → Bool
deployment_dbi_metadata_drifted existing expected =
    (deployment_dbi_label existing == "" && not (deployment_dbi_label expected == ""))
    || (not (deployment_dbi_label existing == "")
        && not (deployment_dbi_label expected == "")
        && not (deployment_dbi_label existing == deployment_dbi_label expected))

abbrev pub MapTest : Type 0
MapTest = List (String × String) → List (String × String) → Bool

-- The three comparisons of a stored object with what is rendered.
unfoldable pub config_map_differs : MapTest → ConfigMap → ConfigMap → Bool
config_map_differs same_map existing expected =
    not (same_map existing.data_values expected.data_values)
    || not (same_map existing.binary_data expected.binary_data)

unfoldable pub deployment_differs :
    {T : Type 0} → (T → T → Bool) → Deployment T → Deployment T → Bool
deployment_differs same_template existing expected =
    deployment_dbi_metadata_drifted existing expected
    || not (int32_value existing.replicas =? int32_value expected.replicas)
    || not (existing.strategy == expected.strategy)
    || not (same_template existing.template expected.template)

unfoldable pub service_spec_drifted : MapTest → Service → Service → Bool
service_spec_drifted same_map existing expected =
    not (existing.type == expected.type)
    || not (same_map existing.selector expected.selector)
    || not (service_ports_equal_ignoring_allocated existing.ports expected.ports)
    || not (same_map existing.annotations expected.annotations)

-- The lists of the server and the rendered objects.
pub record DriftApi (T : Type 0) : Type 0 where
  pub config_maps : Answer (List ConfigMap)
  pub deployments : Answer (List (Deployment T))
  pub services : Answer (List Service)
  pub pods : Answer (List (List (String × String)))
  pub expected_config_map : InstancePlan → ConfigMap
  pub expected_deployment : InstancePlan → Deployment T
  pub expected_service : InstancePlan → Service
  pub expected_role_service : Role → Service
  pub same_map : MapTest
  pub same_template : T → T → Bool

-- The first expected name that no object has.
unfoldable pub missing_expected_name : List String → List String → Option String
missing_expected_name names [] = none
missing_expected_name names (expected ∷ rest) =
    let later = missing_expected_name names rest in
    if contains names expected then later else some expected

-- One test of the check: what is found is to be applied.
abbrev pub apply_if_found : Bool → String → Answer (Bool × String) → Answer (Bool × String)
apply_if_found found reason next = if found then ok (true, reason) else next

abbrev pub apply_if_missing :
    String → Option String → Answer (Bool × String) → Answer (Bool × String)
apply_if_missing kind none next = next
apply_if_missing kind (some name) next = ok (true, kind ^^ "-missing:" ^^ name)

module _ {T : Type 0} (api : DriftApi T) (role_service_name : String → String → String)
    (resource_name : String → String → String) where
  unfoldable pub config_map_drifted : Output → List ConfigMap → Bool
  config_map_drifted plan config_maps =
      any
        (λ instance_plan.
          let expected = api.expected_config_map instance_plan in
          drifted_from (λ existing. config_map_differs api.same_map existing expected)
            (lookup expected.name (by_name (λ c. c.name) config_maps [])))
        (active_plan_instances plan.instances)

  unfoldable pub deployment_template_drifted : Output → List (Deployment T) → Bool
  deployment_template_drifted plan deployments =
      any
        (λ instance_plan.
          let expected = api.expected_deployment instance_plan in
          drifted_from (λ existing. deployment_differs api.same_template existing expected)
            (lookup expected.name (by_name (λ d. d.name) deployments [])))
        (active_plan_instances plan.instances)

  abbrev pub existing_drifted : List Service → Service → Bool
  existing_drifted services expected =
      drifted_from (λ existing. service_spec_drifted api.same_map existing expected)
        (lookup expected.name (by_name (λ s. s.name) services []))

  unfoldable pub service_drifted : Output → List Service → Bool
  service_drifted plan services =
      any (λ instance_plan. existing_drifted services (api.expected_service instance_plan))
        (active_plan_instances plan.instances)
      || any (λ role. existing_drifted services (api.expected_role_service role))
          (role_writer ∷ role_reader ∷ [])

  -- The names of `expectedManagedResourceNames`: those of config maps and deployments, and those of services.
  unfoldable pub expected_instance_names : PgBouncerAurora → Output → List String
  expected_instance_names resource plan =
      map (λ instance_plan. resource_name resource.name instance_plan.name)
        (active_plan_instances plan.instances)

  unfoldable pub expected_service_names : PgBouncerAurora → Output → List String
  expected_service_names resource plan =
      expected_instance_names resource plan
      ++ (service_name_for_role role_service_name resource role_writer
          ∷ service_name_for_role role_service_name resource role_reader
          ∷ [])

  unfoldable pub stale_role_service_exists : PgBouncerAurora → List Service → List String → Bool
  stale_role_service_exists resource services desired_names =
      any
        (λ item. not (
          not (value_at label_instance item.labels == "")
          || (value_at label_service_role item.labels == ""
              && not (is_legacy_role_service role_service_name resource item))
          || contains desired_names item.name))
        services

  abbrev pub pods_need_apply : Output → Answer (Bool × String)
  pods_need_apply plan = api.pods >>= λ pods.
      apply_if_found (pod_membership_label_drifted plan pods) "pod-membership-label-drifted"
        (ok (false, "no-change"))

  abbrev pub services_need_apply : PgBouncerAurora → Output → Answer (Bool × String)
  services_need_apply resource plan = api.services >>= λ services.
      apply_if_missing "service"
        (missing_expected_name (map (λ s. s.name) services) (expected_service_names resource plan))
        (apply_if_found
          (stale_role_service_exists resource services (expected_service_names resource plan))
          "stale-role-service-exists"
          (apply_if_found (service_drifted plan services) "service-drifted" (pods_need_apply plan)))

  abbrev pub deployments_need_apply : PgBouncerAurora → Output → Answer (Bool × String)
  deployments_need_apply resource plan = api.deployments >>= λ deployments.
      apply_if_missing "deployment"
        (missing_expected_name (map (λ d. d.name) deployments)
          (expected_instance_names resource plan))
        (apply_if_found (deployment_template_drifted plan deployments) "deployment-template-drifted"
          (services_need_apply resource plan))

  unfoldable pub cached_plan_needs_apply : PgBouncerAurora → Output → Answer (Bool × String)
  cached_plan_needs_apply resource plan = api.config_maps >>= λ config_maps.
      apply_if_missing "configmap"
        (missing_expected_name (map (λ c. c.name) config_maps)
          (expected_instance_names resource plan))
        (apply_if_found (config_map_drifted plan config_maps) "configmap-drifted"
          (deployments_need_apply resource plan))
