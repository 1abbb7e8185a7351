-- ===== src/Planner/Serving.antt =====
-- internal/planner/planner.go: the membership after the loop, read off the plans.
use pgbouncer_aurora_operato.Base.{
  if◌then◌else◌, any, any-sort_by, contains, contains-sort_strings, String, ◌≡◌, refl, sym, ap, ◌∙◌,
  Bool, true, false, not, ◌&&◌, List, [], ◌∷◌, arith, ◌==◌, eq_iff,
}
use pgbouncer_aurora_operato.Api.{Role, role_writer, role_reader, InstanceStatus}
use pgbouncer_aurora_operato.Domain.{InstanceObservation, InstancePlan}
use pgbouncer_aurora_operato.Planner.{
  sort_instance_plans, observed_output, gathered, observed_plan, plan, previous_instance_status,
  Input, plan_for, Gathered, gather, observe_all,
}

-- A plan that asks for traffic in a role.
abbrev pub serves : Role → InstancePlan → Bool
serves role plan = not plan.disabled && plan.healthy && plan.role == role

abbrev pub serving_names : Role → List InstancePlan → List String
serving_names role [] = []
serving_names role (plan ∷ plans) =
    let rest = serving_names role plans in if serves role plan then plan.name ∷ rest else rest

-- Whether some plan of that name serves in the role.
abbrev pub is_serving : Role → List InstancePlan → String → Bool
is_serving role plans name = any (λ plan. serves role plan && plan.name == name) plans

contains-serving_names :
    (role : Role) (plans : List InstancePlan) (name : String)
    → contains (serving_names role plans) name ≡ is_serving role plans name
contains-serving_names role [] name = refl
contains-serving_names role (plan ∷ plans) name =
    ground (arith, contains-serving_names role plans name)

writer_is_not_reader : (role : Role) → (role == role_writer) ≡ true → (role == role_reader) ≡ false
writer_is_not_reader role e = rw ((eq_iff role role_writer).0 e)

gather-names :
    (plan : InstancePlan) (later : Gathered)
    → later.writer ≡ serving_names role_writer later.instances
    → later.reader ≡ serving_names role_reader later.instances
    → ((gather plan later).writer ≡ serving_names role_writer (gather plan later).instances)
      × ((gather plan later).reader ≡ serving_names role_reader (gather plan later).instances)
unfolding gather
gather-names plan later w r = ground (arith, writer_is_not_reader plan.role)

-- The loop gathers the names of the plans that serve.
observe_all-names :
    (input : Input) (previous : List (String × InstanceStatus))
    (observed : List InstanceObservation)
    → let g = observe_all input previous observed in
      (g.writer ≡ serving_names role_writer g.instances)
      × (g.reader ≡ serving_names role_reader g.instances)
unfolding observe_all
observe_all-names input previous [] = (refl, refl)
observe_all-names input previous (observed ∷ rest) =
    let (w, r) = observe_all-names input previous rest in
    gather-names (plan_for input previous observed) (observe_all input previous rest) w r

module _ (input : Input) where
  gathered-names :
      ((gathered input).writer ≡ serving_names role_writer (gathered input).instances)
      × ((gathered input).reader ≡ serving_names role_reader (gathered input).instances)
  unfolding gathered
  gathered-names =
      observe_all-names input (previous_instance_status input.resource.status.instances)
        input.discovered

  -- After the loop the members of a service are the names of the plans that serve.
  pub observed_plan-writer :
      (name : String)
      → contains (observed_plan input).membership.writer name
        ≡ is_serving role_writer (observed_plan input).instances name
  unfolding observed_plan observed_output sort_instance_plans
  observed_plan-writer name =
      contains-sort_strings _ name
      ∙ ap (λ names. contains names name) gathered-names.0
      ∙ contains-serving_names role_writer (gathered input).instances name
      ∙ sym (any-sort_by (λ plan. plan.name) _ (gathered input).instances)

  pub observed_plan-reader :
      (name : String)
      → contains (observed_plan input).membership.reader name
        ≡ is_serving role_reader (observed_plan input).instances name
  unfolding observed_plan observed_output sort_instance_plans
  observed_plan-reader name =
      contains-sort_strings _ name
      ∙ ap (λ names. contains names name) gathered-names.1
      ∙ contains-serving_names role_reader (gathered input).instances name
      ∙ sym (any-sort_by (λ plan. plan.name) _ (gathered input).instances)
