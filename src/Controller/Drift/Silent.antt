-- ===== src/Controller/Drift/Silent.antt =====
-- internal/controller/reconciler.go: what the cluster is like when the check finds nothing to apply.
use pgbouncer_aurora_operato.Base.{
  Bool-cases, if_true, if_false, All, contains, Answer, ok, failed, ◌>>=◌, String, ◌≡◌, refl, sym,
  ◌∙◌, inl, inr, Bool, true, false, Option, none, some, List, [], ◌∷◌, map,
}
use pgbouncer_aurora_operato.Controller.Drift.{
  ConfigMap, Deployment, DriftApi, missing_expected_name, apply_if_found, apply_if_missing,
  expected_instance_names, expected_service_names, cached_plan_needs_apply,
}
use pgbouncer_aurora_operato.Controller.Drift.Agrees.{
  AgreesConfig, config_map_drifted-silent, AgreesDeployments, deployment_template_drifted-silent,
  AgreesServices, service_drifted-silent, HasNoStale, stale_role_service_exists-silent, HasLabels,
  pod_membership_label_drifted-silent,
}
use pgbouncer_aurora_operato.Controller.Apply.{Service}
use pgbouncer_aurora_operato.Controller.Labels.{Labels}
use pgbouncer_aurora_operato.Planner.{plan, Output}
use pgbouncer_aurora_operato.Api.{PgBouncerAurora}

bind_silent {ℓ κ} :
    {A : Type ℓ} {B : Type κ} (m : Answer A) (f : A → Answer B) (b : B)
    → (m >>= f) ≡ ok b
    → (a : A) × (m ≡ ok a) × (f a ≡ ok b)
bind_silent (ok a) f b h = (a, refl, h)
bind_silent (failed error) f b h = cc

apply_if_found-silent :
    (found : Bool) (reason : String) (next : Answer (Bool × String)) (said : String)
    → apply_if_found found reason next ≡ ok (false, said)
    → (found ≡ false) × (next ≡ ok (false, said))
apply_if_found-silent true reason next said h = cc
apply_if_found-silent false reason next said h = (refl, h)

apply_if_missing-silent :
    (kind : String) (o : Option String) (next : Answer (Bool × String)) (said : String)
    → apply_if_missing kind o next ≡ ok (false, said)
    → (o ≡ none) × (next ≡ ok (false, said))
apply_if_missing-silent kind none next said h = (refl, h)
apply_if_missing-silent kind (some name) next said h = cc

missing_expected_name-none :
    (names expected : List String)
    → missing_expected_name names expected ≡ none
    → All (λ name. contains names name ≡ true) expected
unfolding missing_expected_name
missing_expected_name-none names [] h = tt
missing_expected_name-none names (name ∷ rest) h = elim (Bool-cases (contains names name)) [
  | inl e ↦ (
    e,
    missing_expected_name-none names rest
        (sym (if_true (missing_expected_name names rest) (some name) e) ∙ h),
  )
  | inr e ↦ let same = sym h ∙ if_false _ _ e in cc
]

module _ {T : Type 0} (api : DriftApi T) (role_service_name : String → String → String)
    (resource_name : String → String → String) where
  abbrev pub HasAll : List String → List String → Type 0
  HasAll names expected = All (λ name. contains names name ≡ true) expected

  -- The lists were answered, no expected object is missing, and none differs from its rendering.
  pub record IsCurrent (resource : PgBouncerAurora) (plan : Output) : Type 0 where
    pub config_maps :
        (list : List ConfigMap) × (api.config_maps ≡ ok list)
        × HasAll
            (map (λ c. c.name) list)
            (expected_instance_names api role_service_name resource_name resource plan)
        × AgreesConfig api role_service_name resource_name plan list
    pub deployments :
        (list : List (Deployment T)) × (api.deployments ≡ ok list)
        × HasAll
            (map (λ d. d.name) list)
            (expected_instance_names api role_service_name resource_name resource plan)
        × AgreesDeployments api role_service_name resource_name plan list
    pub services :
        (list : List Service) × (api.services ≡ ok list)
        × HasAll
            (map (λ s. s.name) list)
            (expected_service_names api role_service_name resource_name resource plan)
        × HasNoStale api role_service_name resource_name resource plan list
        × AgreesServices api role_service_name resource_name plan list
    pub pods :
        (list : List Labels) × (api.pods ≡ ok list)
        × HasLabels api role_service_name resource_name plan list

  -- If the check finds nothing to apply, then all lists were answered; each active instance has its config map, its
  -- deployment and its service, and both roles their services; an object with the name of a rendered one has its data
  -- or its specification, as far as the check compares them; no service of a role has another name than those
  -- expected; and each pod of an instance has exactly the labels of the membership.
  pub cached_plan_needs_apply-IsCurrent :
      (resource : PgBouncerAurora) (plan : Output) (reason : String)
      → cached_plan_needs_apply api role_service_name resource_name resource plan
        ≡ ok (false, reason)
      → IsCurrent resource plan
  unfolding cached_plan_needs_apply
  cached_plan_needs_apply-IsCurrent resource plan reason h =
      let (config_maps, read₁, h₁) = bind_silent api.config_maps _ _ h in
      let (present₁, h₂) = apply_if_missing-silent "configmap" _ _ _ h₁ in
      let (same₁, h₃) = apply_if_found-silent _ _ _ _ h₂ in
      let (deployments, read₂, h₄) = bind_silent api.deployments _ _ h₃ in
      let (present₂, h₅) = apply_if_missing-silent "deployment" _ _ _ h₄ in
      let (same₂, h₆) = apply_if_found-silent _ _ _ _ h₅ in
      let (services, read₃, h₇) = bind_silent api.services _ _ h₆ in
      let (present₃, h₈) = apply_if_missing-silent "service" _ _ _ h₇ in
      let (no_stale, h₉) = apply_if_found-silent _ _ _ _ h₈ in
      let (same₃, h₁₀) = apply_if_found-silent _ _ _ _ h₉ in
      let (pods, read₄, h₁₁) = bind_silent api.pods _ _ h₁₀ in
      let (same₄, h₁₂) = apply_if_found-silent _ _ _ _ h₁₁ in
      record {
        config_maps = (
          config_maps,
          read₁,
          missing_expected_name-none _ _ present₁,
          config_map_drifted-silent api role_service_name resource_name plan config_maps same₁,
        );
        deployments = (
          deployments,
          read₂,
          missing_expected_name-none _ _ present₂,
          deployment_template_drifted-silent api role_service_name resource_name plan deployments
              same₂,
        );
        services = (
          services,
          read₃,
          missing_expected_name-none _ _ present₃,
          stale_role_service_exists-silent api role_service_name resource_name resource plan
              services no_stale,
          service_drifted-silent api role_service_name resource_name plan services same₃,
        );
        pods = (
          pods,
          read₄,
          pod_membership_label_drifted-silent api role_service_name resource_name plan pods same₄,
        );
      }
