-- ===== src/Controller/Drift/Agrees.antt =====
-- internal/controller/reconciler.go: what the objects are like that the check does not find to differ.
use pgbouncer_aurora_operato.Base.{
  ◌=?◌, Bool-cases, if_false, any, All, All-map, contains, lookup, ℕ, String, ◌≡◌, refl, sym, subst,
  ◌∙◌, ◌⊎◌, inl, inr, Bool, true, false, not, ◌&&◌, ◌||◌, Option, some, List, [], ◌∷◌, arith, ◌==◌,
  eq_iff,
}
use pgbouncer_aurora_operato.Controller.Drift.{
  ConfigMap, Deployment, by_name, drifted_from, int32_value, service_ports_equal_ignoring_allocated,
  deployment_dbi_label, deployment_dbi_metadata_drifted, config_map_differs, deployment_differs,
  service_spec_drifted, DriftApi, config_map_drifted, deployment_template_drifted, existing_drifted,
  service_drifted, expected_service_names, stale_role_service_exists,
}
use pgbouncer_aurora_operato.Controller.Apply.{Service, label_service_role, value_at}
use pgbouncer_aurora_operato.Controller.Pods.{
  active_plan_instances, desired_labels, is_exact, pod_membership_label_drifted,
}
use pgbouncer_aurora_operato.Controller.Labels.{Labels, label_instance, label}
use pgbouncer_aurora_operato.Planner.{plan, Output}
use pgbouncer_aurora_operato.Api.{PgBouncerAurora, role_writer, role_reader}

or_silent : (a : Bool) {b : Bool} → (a || b) ≡ false → (a ≡ false) × (b ≡ false)
or_silent true h = cc
or_silent false h = (refl, h)

not_silent : {b : Bool} → not b ≡ false → b ≡ true
not_silent {b = true} h = refl
not_silent {b = false} h = cc

four_silent :
    (a b c : Bool) {d : Bool}
    → (a || b || c || d) ≡ false
    → (a ≡ false) × (b ≡ false) × (c ≡ false) × (d ≡ false)
four_silent a b c h =
    let x = or_silent (a || b || c) h in
    let y = or_silent (a || b) x.0 in let z = or_silent a y.0 in (z.0, z.1, y.1, x.1)

any_silent {ℓ} :
    {A : Type ℓ} (p : A → Bool) (xs : List A) → any p xs ≡ false → All (λ x. p x ≡ false) xs
any_silent p [] h = tt
any_silent p (x ∷ xs) h = elim (Bool-cases (p x)) [
  | inl e ↦ cc
  | inr e ↦ (e, any_silent p xs (sym (if_false _ _ e) ∙ h))
]

drifted_from-silent {ℓ} :
    {A : Type ℓ} (differs : A → Bool) (o : Option A)
    → drifted_from differs o ≡ false
    → (existing : A) → o ≡ some existing
    → differs existing ≡ false
drifted_from-silent differs o h existing e = subst (λ o. drifted_from differs o ≡ false) e h

same_number : (a b : ℕ) → (a =? b) ≡ true → a ≡ b
same_number a b h = ground (arith, h)

-- What the check compares of two deployments, read of its answer.
pub record SameDeployment {T : Type 0} (same_template : T → T → Bool)
    (existing expected : Deployment T) : Type 0 where
  pub label_kept :
      (deployment_dbi_label expected ≡ "")
      ⊎ (deployment_dbi_label existing ≡ deployment_dbi_label expected)
  pub replicas_same : int32_value existing.replicas ≡ int32_value expected.replicas
  pub strategy_same : existing.strategy ≡ expected.strategy
  pub template_same : same_template existing.template expected.template ≡ true

pub record SameService (same_map : List (String × String) → List (String × String) → Bool)
    (existing expected : Service) : Type 0 where
  pub type_same : existing.type ≡ expected.type
  pub selector_same : same_map existing.selector expected.selector ≡ true
  pub ports_same : service_ports_equal_ignoring_allocated existing.ports expected.ports ≡ true
  pub annotations_same : same_map existing.annotations expected.annotations ≡ true

label_cases :
    (existing expected : String)
    → ((existing == "" && not (expected == ""))
        || (not (existing == "") && not (expected == "") && not (existing == expected)))
      ≡ false
    → (expected ≡ "") ⊎ (existing ≡ expected)
label_cases existing expected h = elim (Bool-cases (expected == "")) [
  | inl e ↦ inl ((eq_iff expected "").0 e)
  | inr e ↦ inr ((eq_iff existing expected).0 (ground (arith, h, e)))
]

deployment_dbi_metadata_drifted-silent :
    {T : Type 0} (existing expected : Deployment T)
    → deployment_dbi_metadata_drifted existing expected ≡ false
    → (deployment_dbi_label expected ≡ "")
      ⊎ (deployment_dbi_label existing ≡ deployment_dbi_label expected)
unfolding deployment_dbi_metadata_drifted
deployment_dbi_metadata_drifted-silent existing expected h =
    label_cases (deployment_dbi_label existing) (deployment_dbi_label expected) h

module _ {T : Type 0} (api : DriftApi T) (role_service_name : String → String → String)
    (resource_name : String → String → String) where
  abbrev pub AgreesConfig : Output → List ConfigMap → Type 0
  AgreesConfig plan config_maps =
      All
        (λ instance_plan.
          let expected = api.expected_config_map instance_plan in
          (existing : ConfigMap)
          → lookup expected.name (by_name (λ c. c.name) config_maps []) ≡ some existing
          → (api.same_map existing.data_values expected.data_values ≡ true)
            × (api.same_map existing.binary_data expected.binary_data ≡ true))
        (active_plan_instances plan.instances)

  pub config_map_drifted-silent :
      (plan : Output) (config_maps : List ConfigMap)
      → config_map_drifted api role_service_name resource_name plan config_maps ≡ false
      → AgreesConfig plan config_maps
  unfolding config_map_drifted config_map_differs
  config_map_drifted-silent plan config_maps h =
      All-map _
        (λ instance_plan none_differs existing found.
          let both = or_silent _ (drifted_from-silent _ _ none_differs existing found) in
          (not_silent both.0, not_silent both.1))
        (active_plan_instances plan.instances)
        (any_silent _ (active_plan_instances plan.instances) h)

  abbrev pub AgreesDeployments : Output → List (Deployment T) → Type 0
  AgreesDeployments plan deployments =
      All
        (λ instance_plan.
          let expected = api.expected_deployment instance_plan in
          (existing : Deployment T)
          → lookup expected.name (by_name (λ d. d.name) deployments []) ≡ some existing
          → SameDeployment api.same_template existing expected)
        (active_plan_instances plan.instances)

  pub deployment_template_drifted-silent :
      (plan : Output) (deployments : List (Deployment T))
      → deployment_template_drifted api role_service_name resource_name plan deployments ≡ false
      → AgreesDeployments plan deployments
  unfolding deployment_template_drifted deployment_differs
  deployment_template_drifted-silent plan deployments h =
      All-map _
        (λ instance_plan none_differs existing found.
          let expected = api.expected_deployment instance_plan in
          let four = four_silent _ _ _ (drifted_from-silent _ _ none_differs existing found) in
          record {
            label_kept = deployment_dbi_metadata_drifted-silent existing expected four.0;
            replicas_same = same_number _ _ (not_silent four.1);
            strategy_same = (eq_iff existing.strategy expected.strategy).0 (not_silent four.2);
            template_same = not_silent four.3;
          })
        (active_plan_instances plan.instances)
        (any_silent _ (active_plan_instances plan.instances) h)

  abbrev pub AgreesService : List Service → Service → Type 0
  AgreesService services expected =
      (existing : Service)
      → lookup expected.name (by_name (λ s. s.name) services []) ≡ some existing
      → SameService api.same_map existing expected

  service_spec_drifted-silent :
      (existing expected : Service)
      → service_spec_drifted api.same_map existing expected ≡ false
      → SameService api.same_map existing expected
  unfolding service_spec_drifted
  service_spec_drifted-silent existing expected h =
      let four = four_silent _ _ _ h in
      record {
        type_same = (eq_iff existing.type expected.type).0 (not_silent four.0);
        selector_same = not_silent four.1;
        ports_same = not_silent four.2;
        annotations_same = not_silent four.3;
      }

  existing_drifted-silent :
      (services : List Service) (expected : Service)
      → existing_drifted api role_service_name resource_name services expected ≡ false
      → AgreesService services expected
  existing_drifted-silent services expected h existing found =
      service_spec_drifted-silent existing expected (drifted_from-silent _ _ h existing found)

  abbrev pub AgreesServices : Output → List Service → Type 0
  AgreesServices plan services =
      All (λ instance_plan. AgreesService services (api.expected_service instance_plan))
        (active_plan_instances plan.instances)
      × All (λ role. AgreesService services (api.expected_role_service role))
          (role_writer ∷ role_reader ∷ [])

  pub service_drifted-silent :
      (plan : Output) (services : List Service)
      → service_drifted api role_service_name resource_name plan services ≡ false
      → AgreesServices plan services
  unfolding service_drifted
  service_drifted-silent plan services h =
      let both = or_silent _ h in
      (
        All-map _
            (λ instance_plan. existing_drifted-silent services (api.expected_service instance_plan))
            (active_plan_instances plan.instances)
            (any_silent _ (active_plan_instances plan.instances) both.0),
        All-map _ (λ role. existing_drifted-silent services (api.expected_role_service role))
            (role_writer ∷ role_reader ∷ [])
            (any_silent
              (λ role.
                existing_drifted api role_service_name resource_name services
                  (api.expected_role_service role))
              (role_writer ∷ role_reader ∷ []) both.1),
      )

  abbrev pub HasNoStale : PgBouncerAurora → Output → List Service → Type 0
  HasNoStale resource plan services =
      All
        (λ item.
          (value_at label_instance item.labels == "") ≡ true
          → (value_at label_service_role item.labels == "") ≡ false
          → contains (expected_service_names api role_service_name resource_name resource plan)
              item.name
            ≡ true)
        services

  pub stale_role_service_exists-silent :
      (resource : PgBouncerAurora) (plan : Output) (services : List Service)
      → stale_role_service_exists api role_service_name resource_name resource services
          (expected_service_names api role_service_name resource_name resource plan)
        ≡ false
      → HasNoStale resource plan services
  unfolding stale_role_service_exists
  stale_role_service_exists-silent resource plan services h =
      All-map _ (λ item stays no_instance has_role. ground (arith, stays, no_instance, has_role))
        services (any_silent _ services h)

  abbrev pub HasLabels : Output → List Labels → Type 0
  HasLabels plan pods =
      All
        (λ labels.
          (label labels label_instance == "") ≡ false
          → is_exact (desired_labels plan) labels ≡ true)
        pods

  pub pod_membership_label_drifted-silent :
      (plan : Output) (pods : List Labels)
      → pod_membership_label_drifted plan pods ≡ false
      → HasLabels plan pods
  unfolding pod_membership_label_drifted
  pod_membership_label_drifted-silent plan pods h =
      All-map _ (λ labels none_differs has_instance. ground (arith, none_differs, has_instance))
        pods (any_silent _ pods h)
