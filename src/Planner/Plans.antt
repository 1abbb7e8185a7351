-- ===== src/Planner/Plans.antt =====
-- internal/planner/planner.go: the plan of one observed instance, and the list of the plans.
use mathlib.Core.List.{Forall₂, Perm}
use pgbouncer_aurora_operato.Base.{
  Bool-cases, if_cases, All, IsSortedBy, sort_by-perm, sort_by-IsSortedBy, All-sort_by, lookup,
  String, ◌≡◌, refl, sym, ap, subst, ◌∙◌, inl, inr, Bool, true, false, ◌&&◌, Option, none, some,
  List, [], ◌∷◌, arith, ◌==◌, eq_iff,
}
use pgbouncer_aurora_operato.Api.{PgBouncerAurora, Role, InstanceStatus}
use pgbouncer_aurora_operato.Domain.{InstanceObservation, HealthStatus, InstancePlan}
use pgbouncer_aurora_operato.Planner.{
  sort_instance_plans, observed_output, gathered, observed_plan, plan, plan_trusted,
  instance_disabled, replicas_for, apply_cached_health, apply_health, apply_monitor_thresholds,
  Input, previous_for, initial_plan, enabled_plan, plan_for, Gathered, gather, observe_all,
}
use pgbouncer_aurora_operato.Planner.Serving.{serves, is_serving}
use pgbouncer_aurora_operato.Planner.Frame.{stabilized_plan-base}

abbrev SamePlace : InstancePlan → InstancePlan → Type 0
SamePlace plan plan' =
    (plan'.observation ≡ plan.observation)
    × (plan'.disabled ≡ plan.disabled)
    × (plan'.replicas ≡ plan.replicas)

apply_cached_health-base :
    (plan : InstancePlan) (previous : InstanceStatus)
    → SamePlace plan (apply_cached_health plan previous)
unfolding apply_cached_health
apply_cached_health-base plan previous = ground arith

apply_health-base :
    (plan : InstancePlan) (health : Option HealthStatus) → SamePlace plan (apply_health plan health)
unfolding apply_health
apply_health-base plan none = (refl, refl, refl)
apply_health-base plan (some health) = (refl, refl, refl)

apply_monitor_thresholds-base :
    (resource : PgBouncerAurora) (plan : InstancePlan) (previous : InstanceStatus) (had : Bool)
    → SamePlace plan (apply_monitor_thresholds resource plan previous had)
unfolding apply_monitor_thresholds
apply_monitor_thresholds-base resource plan previous had = elim (Bool-cases plan.healthy) [
  | inl e ↦ rw (e, apply_monitor_thresholds) (refl, refl, refl)
  | inr e ↦ rw (e, apply_monitor_thresholds) (refl, refl, refl)
]

enabled_plan-base :
    (input : Input) (observed : InstanceObservation) (previous : InstanceStatus × Bool)
    → SamePlace (initial_plan input observed) (enabled_plan input observed previous)
unfolding enabled_plan
enabled_plan-base input observed (previous, had) =
    if_cases (SamePlace (initial_plan input observed)) input.cached_health _ _
      (λ _. apply_cached_health-base (initial_plan input observed) previous)
      λ _.
        let start = initial_plan input observed in
        let checked = apply_health start (lookup observed.name input.health) in
        let (a, b, c) = apply_health-base start (lookup observed.name input.health) in
        let (d, e, f) = apply_monitor_thresholds-base input.resource checked previous had in
        (d ∙ a, e ∙ b, f ∙ c)

-- What the plan of an instance says of it, whatever its health: the observation itself, the switch
-- of the spec, and a replica count that is 0 just for an instance that is switched off.
pub record Places (input : Input) (observed : InstanceObservation) (plan : InstancePlan)
    : Type 0 where
  pub same : plan.observation ≡ observed
  pub switch : plan.disabled ≡ instance_disabled input.resource.spec.pgbouncer observed.name
  pub off : plan.disabled ≡ true → (plan.replicas ≡ 0) × (plan.healthy ≡ false)
  pub on :
      plan.disabled ≡ false
      → plan.replicas ≡ replicas_for input.resource.spec.pgbouncer observed.name

pub plan_for-Places :
    (input : Input) (previous : List (String × InstanceStatus)) (observed : InstanceObservation)
    → Places input observed (plan_for input previous observed)
unfolding plan_for
plan_for-Places input previous observed =
    if_cases (Places input observed) (instance_disabled input.resource.spec.pgbouncer observed.name)
      _ _ (λ e. record { same = refl; switch = sym e; off = λ _. (refl, refl); on = λ h. cc })
      λ e.
        let (a, b, c) =
          enabled_plan-base input observed
            (previous_for (lookup observed.name previous) observed) in
        record { same = a; switch = b ∙ sym e; off = λ h. cc; on = λ _. c }

gather-instances :
    (plan : InstancePlan) (later : Gathered)
    → (gather plan later).instances ≡ plan ∷ later.instances
unfolding gather
gather-instances plan later = ground arith

-- The instances of the gathered plans are those that were discovered, in order.
observe_all-Places :
    (input : Input) (previous : List (String × InstanceStatus))
    (observed : List InstanceObservation)
    → Forall₂ (Places input) observed (observe_all input previous observed).instances
unfolding observe_all
observe_all-Places input previous [] = Forall₂.nil
observe_all-Places input previous (o ∷ observed) =
    subst (Forall₂ (Places input) (o ∷ observed)) (sym (gather-instances _ _))
      (Forall₂.cons (plan_for-Places input previous o) (observe_all-Places input previous observed))

-- A trusted plan has one plan for each discovered instance, with its place, and in the order of
-- the names.
pub plan_covers_discovered :
    (input : Input)
    → input.discovery_trusted ≡ true
    → (plans : List InstancePlan) × Forall₂ (Places input) input.discovered plans
      × Perm (plan input).instances plans
      × IsSortedBy (λ plan. plan.name) (plan input).instances
unfolding gathered observed_plan observed_output sort_instance_plans
plan_covers_discovered input trusted =
    let sorted : (plan input).instances ≡ (observed_plan input).instances =
      ap (λ out. out.instances) (plan_trusted input trusted) ∙ (stabilized_plan-base input).0 in
    (
      (gathered input).instances,
      observe_all-Places input _ input.discovered,
      subst (λ plans. Perm plans (gathered input).instances) (sym sorted)
          (sort_by-perm (λ plan. plan.name) (gathered input).instances),
      subst (IsSortedBy (λ plan. plan.name)) (sym sorted)
          (sort_by-IsSortedBy (λ plan. plan.name) (gathered input).instances),
    )

-- Each plan carries the switch of its instance.
abbrev HasSwitch : Input → InstancePlan → Type 0
HasSwitch input plan = plan.disabled ≡ instance_disabled input.resource.spec.pgbouncer plan.name

Places-HasSwitch :
    (input : Input) {observed : List InstanceObservation} {plans : List InstancePlan}
    → Forall₂ (Places input) observed plans
    → All (HasSwitch input) plans
Places-HasSwitch input Forall₂.nil = tt
Places-HasSwitch input (Forall₂.cons p ps) = (
  p.switch ∙ ap (λ o. instance_disabled input.resource.spec.pgbouncer o.name) (sym p.same),
  Places-HasSwitch input ps,
)

is_serving-enabled :
    (input : Input) (role : Role) (name : String) (plans : List InstancePlan)
    → All (HasSwitch input) plans
    → is_serving role plans name ≡ true
    → instance_disabled input.resource.spec.pgbouncer name ≡ false
is_serving-enabled input role name [] all h = cc
is_serving-enabled input role name (plan ∷ plans) all h =
    elim (Bool-cases (serves role plan && plan.name == name)) [
      | inl e ↦ ground (arith, all.0, eq_iff plan.name name)
      | inr e ↦ is_serving-enabled input role name plans all.1 (ground arith)
    ]

-- An instance that serves is not switched off.
pub observed_plan-enabled :
    (input : Input) (role : Role) (name : String)
    → is_serving role (observed_plan input).instances name ≡ true
    → instance_disabled input.resource.spec.pgbouncer name ≡ false
unfolding gathered observed_plan observed_output sort_instance_plans
observed_plan-enabled input role name = is_serving-enabled input role name _ (
    All-sort_by (λ plan. plan.name) (HasSwitch input) (gathered input).instances
      (Places-HasSwitch input (observe_all-Places input _ input.discovered)))
