-- ===== src/Controller/Conditions/Ready.antt =====
-- internal/controller/reconciler.go: when the conditions of a role and of the backends are true.
use pgbouncer_aurora_operato.Base.{
  if◌then◌else◌, Bool-cases, if_cases, if_true, if_false, is_empty, filter, any, int32_pos, join,
  contains, lookup, insert, lookup-insert, String, ◌^^◌, ◌≡◌, refl, ap, subst, ◌∙◌, inl, inr, Bool,
  true, false, not, ◌&&◌, none, List, [], ◌∷◌, ◌++◌, map, arith, ◌==◌, eq_iff,
}
use pgbouncer_aurora_operato.Api.{Role, role_reader, condition_true, condition_false}
use pgbouncer_aurora_operato.Domain.{InstancePlan}
use pgbouncer_aurora_operato.Planner.{plan, Output}
use pgbouncer_aurora_operato.Controller.Membership.Sets.{AreDistinct}
use pgbouncer_aurora_operato.Controller.Pods.{active_plan_instances}
use pgbouncer_aurora_operato.Controller.Conditions.{
  Judgement, unhealthy_text, backend_healthy_condition, plans_by_name, is_ready_member,
  not_ready_text, ready_loop, role_members, role_text, role_ready_condition,
}

ready_loop-any :
    (instances : List (String × InstancePlan)) (role_name : String) (noted members : List String)
    → ((ready_loop instances role_name noted members).0 == condition_true)
      ≡ any (λ member. is_ready_member (lookup member instances)) members
unfolding ready_loop
ready_loop-any instances role_name noted [] = refl
ready_loop-any instances role_name noted (member ∷ members) =
    go (is_ready_member (lookup member instances)) _ (
      ready_loop-any instances role_name
        (noted ++ not_ready_text member (lookup member instances) ∷ []) members)
  where
    go :
        (b : Bool) (later : Judgement)
        → (later.0 == condition_true)
          ≡ any (λ other. is_ready_member (lookup other instances)) members
        → ((if◌then◌else◌ {A = Judgement} b (condition_true, role_name ^^ "Ready", "") later).0
            == condition_true)
          ≡ (if b then true else any (λ other. is_ready_member (lookup other instances)) members)
    go true later h = refl
    go false later h = h

-- What the loop over the members finds in the map of the plans.
pub role_ready_condition-loop :
    (plan : Output) (role : Role)
    → ((role_ready_condition plan role).0 == condition_true)
      ≡ any
          (λ member.
            is_ready_member
              (lookup member (plans_by_name [] (active_plan_instances plan.instances))))
          (role_members plan role)
unfolding role_ready_condition
role_ready_condition-loop plan role = go (role_members plan role)
  where
    go :
        (members : List String)
        → ((if is_empty members
              then (if role == role_reader && plan.reader_fallback_suppressed
                  then (
                    condition_false, "ReaderMembersDisabledByOverride",
                    plan.reader_fallback_suppressed_reason,
                  )
                  else (condition_false, "No" ^^ role_text role ^^ "Members", ""))
              else ready_loop
                  (plans_by_name [] (active_plan_instances plan.instances))
                  (role_text role)
                  []
                  members).0
            == condition_true)
          ≡ any
              (λ member.
                is_ready_member
                  (lookup member (plans_by_name [] (active_plan_instances plan.instances))))
              members
    go [] =
        if_cases (λ (judgement : Judgement). (judgement.0 == condition_true) ≡ false)
          (role == role_reader && plan.reader_fallback_suppressed) _ _ (λ _. refl) (λ _. refl)
    go (member ∷ members) =
        ready_loop-any (plans_by_name [] (active_plan_instances plan.instances)) (role_text role) []
          (member ∷ members)

any-filter {ℓ} :
    {A : Type ℓ} (p q : A → Bool) (xs : List A) → any q (filter p xs) ≡ any (λ x. p x && q x) xs
any-filter p q [] = refl
any-filter p q (x ∷ xs) = ground (arith, any-filter p q xs)

any-same_test {ℓ} :
    {A : Type ℓ} (p q : A → Bool) (xs : List A) → ((x : A) → p x ≡ q x) → any p xs ≡ any q xs
any-same_test p q [] h = refl
any-same_test p q (x ∷ xs) h = ground (arith, h x, any-same_test p q xs h)

names_of : List InstancePlan → List String
names_of = map (λ p. p.name)

is_ready_plan : String → InstancePlan → Bool
is_ready_plan member p = p.name == member && int32_pos p.ready_replicas

unnamed-filter :
    (test : InstancePlan → Bool) (plans : List InstancePlan) (k : String)
    → contains (names_of plans) k ≡ false
    → contains (names_of (filter test plans)) k ≡ false
unfolding names_of
unnamed-filter test [] k h = refl
unnamed-filter test (p ∷ plans) k h = ground (arith, h, unnamed-filter test plans k)

distinct-filter :
    (test : InstancePlan → Bool) (plans : List InstancePlan)
    → AreDistinct (names_of plans)
    → AreDistinct (names_of (filter test plans))
unfolding names_of
distinct-filter test [] h = tt
distinct-filter test (p ∷ plans) h =
    if_cases (λ kept. AreDistinct (map (λ (q : InstancePlan). q.name) kept)) (test p) _ _
      (λ _. (unnamed-filter test plans p.name h.0, distinct-filter test plans h.1))
      (λ _. distinct-filter test plans h.1)

lookup-unnamed :
    (out : List (String × InstancePlan)) (plans : List InstancePlan) (k : String)
    → contains (names_of plans) k ≡ false
    → lookup k (plans_by_name out plans) ≡ lookup k out
unfolding plans_by_name names_of
lookup-unnamed out [] k h = refl
lookup-unnamed out (p ∷ plans) k h =
    lookup-unnamed (insert p.name p out) plans k (ground (arith, h))
    ∙ lookup-insert p.name k p out
    ∙ ground (arith, h)

any-unnamed :
    (plans : List InstancePlan) (k : String)
    → contains (names_of plans) k ≡ false
    → any (is_ready_plan k) plans ≡ false
unfolding names_of is_ready_plan
any-unnamed [] k h = refl
any-unnamed (p ∷ plans) k h = ground (arith, h, any-unnamed plans k)

-- With distinct names the map holds for each name the one plan that has it.
is_ready_member-plans_by_name :
    (out : List (String × InstancePlan)) (plans : List InstancePlan) (k : String)
    → AreDistinct (names_of plans)
    → lookup k out ≡ none
    → is_ready_member (lookup k (plans_by_name out plans)) ≡ any (is_ready_plan k) plans
unfolding plans_by_name names_of is_ready_plan
is_ready_member-plans_by_name out [] k d h = ap is_ready_member h
is_ready_member-plans_by_name out (p ∷ plans) k d h = elim (Bool-cases (p.name == k)) [
  | inl same ↦
      let later : contains (names_of plans) k ≡ false =
        subst (λ n. contains (names_of plans) n ≡ false) ((eq_iff p.name k).0 same) d.0 in
      ap is_ready_member (
        lookup-unnamed (insert p.name p out) plans k later
        ∙ lookup-insert p.name k p out
        ∙ if_true _ _ same)
      ∙ ground (arith, same, any-unnamed plans k later)
  | inr other ↦
      is_ready_member-plans_by_name (insert p.name p out) plans k d.1
        (lookup-insert p.name k p out ∙ if_false _ _ other ∙ h)
      ∙ ground (arith, other)
]

-- If no two instances of the plan have the same name, the condition of a role is true just if some member of its
-- service is the name of an instance of the plan that is not switched off and has a ready pod.
pub role_ready_condition-any :
    (plan : Output) (role : Role)
    → AreDistinct (map (λ p. p.name) plan.instances)
    → ((role_ready_condition plan role).0 == condition_true)
      ≡ any
          (λ member.
            any
              (λ p. not p.disabled && (p.name == member && int32_pos p.ready_replicas))
              plan.instances)
          (if role == role_reader then plan.membership.reader else plan.membership.writer)
unfolding names_of is_ready_plan
role_ready_condition-any plan role distinct =
    role_ready_condition-loop plan role
    ∙ any-same_test _ _ (role_members plan role) (λ member.
      is_ready_member-plans_by_name [] (active_plan_instances plan.instances) member
        (distinct-filter (λ p. not p.disabled) plan.instances distinct) refl
      ∙ any-filter (λ p. not p.disabled) (is_ready_plan member) plan.instances)

is_empty-unhealthy :
    (plans : List InstancePlan)
    → is_empty (map unhealthy_text (filter (λ p. not p.healthy) plans))
      ≡ not (any (λ p. not p.healthy) plans)
is_empty-unhealthy [] = refl
is_empty-unhealthy (p ∷ plans) = go p.healthy (is_empty-unhealthy plans)
  where
    go :
        (healthy : Bool)
        → is_empty (map unhealthy_text (filter (λ q. not q.healthy) plans))
          ≡ not (any (λ q. not q.healthy) plans)
        → is_empty (
            map unhealthy_text (
              if not healthy
              then p ∷ filter (λ q. not q.healthy) plans
              else filter (λ q. not q.healthy) plans))
          ≡ not (if not healthy then true else any (λ q. not q.healthy) plans)
    go true ih = ih
    go false ih = refl

-- The condition of the backends is true just if some instance is active and all that are are healthy.
pub backend_healthy_condition-any :
    (plan : Output)
    → ((backend_healthy_condition plan).0 == condition_true) ≡ (
        not (is_empty (active_plan_instances plan.instances))
        && not (any (λ p. not p.healthy) (active_plan_instances plan.instances)))
unfolding backend_healthy_condition
backend_healthy_condition-any plan =
    let active = active_plan_instances plan.instances in
    go (is_empty active) (is_empty (map unhealthy_text (filter (λ p. not p.healthy) active)))
      (any (λ p. not p.healthy) active)
      (join (map unhealthy_text (filter (λ p. not p.healthy) active)) "; ")
      (is_empty-unhealthy active)
  where
    go :
        (none_active none_unhealthy some_unhealthy : Bool) (text : String)
        → none_unhealthy ≡ not some_unhealthy
        → (let judgement : Judgement =
              if none_active
              then (condition_false, "NoBackends", "no backend instances")
              else if not none_unhealthy
              then (condition_false, "BackendUnhealthy", text)
              else (condition_true, "AllBackendsHealthy", "") in
            (judgement.0 == condition_true) ≡ (not none_active && not some_unhealthy))
    go true u s text e = refl
    go false true true text e = cc
    go false true false text e = refl
    go false false true text e = refl
    go false false false text e = cc
