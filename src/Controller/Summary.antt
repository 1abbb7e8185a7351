-- ===== src/Controller/Summary.antt =====
-- internal/controller/reconciler.go: the summary of a service in the status. The name of the service is
-- `RoleServiceName` of internal/render/resources.go, an argument here.
use pgbouncer_aurora_operato.Base.{
  if◌then◌else◌, if_cases, length, int32_mod, int32_add, int32_pos, contains, lookup, ℕ, suc, ◌+◌,
  ◌%◌, ◌≤◌, ◌<◌, String, ◌≡◌, refl, Bool, true, false, ◌&&◌, Option, none, some, List, [], ◌∷◌,
  arith, ◌==◌,
}
use pgbouncer_aurora_operato.Api.{
  PgBouncerAurora, Role, role_writer, role_reader, RoleServiceSummaryStatus, ServiceSummaryStatus,
}
use pgbouncer_aurora_operato.Domain.{InstancePlan}
use pgbouncer_aurora_operato.Planner.{plan, Output}
use pgbouncer_aurora_operato.Controller.Pods.{active_plan_instances}
use pgbouncer_aurora_operato.Controller.Conditions.{plans_by_name}

-- What the two loops count, and the set `countedCandidates`.
pub record Counted : Type 0 where
  pub total : ℕ
  pub healthy : ℕ
  pub unhealthy : ℕ
  pub counted : List String

abbrev pub nothing_counted : Counted
nothing_counted = record { total = 0; healthy = 0; unhealthy = 0; counted = [] }

-- One candidate more.
unfoldable pub count_candidate : InstancePlan → Counted → Counted
count_candidate instance_plan c = record {
  total = int32_add c.total 1;
  healthy = if instance_plan.healthy then int32_add c.healthy 1 else c.healthy;
  unhealthy = if instance_plan.healthy then c.unhealthy else int32_add c.unhealthy 1;
  counted = instance_plan.name ∷ c.counted;
}

-- The loop over the instances.
unfoldable pub count_candidates : Role → Counted → List InstancePlan → Counted
count_candidates role c [] = c
count_candidates role c (instance_plan ∷ rest) =
    count_candidates role
      (if instance_plan.role == role then count_candidate instance_plan c else c) rest

pub record MemberCounts : Type 0 where
  pub candidates : Counted
  pub ready_members : ℕ
  pub fallback_from_writer : Bool

-- A writer that stands in for the readers counts among their candidates, once.
abbrev pub count_fallback : Role → InstancePlan → MemberCounts → MemberCounts
count_fallback role instance_plan m =
    if role == role_reader && instance_plan.role == role_writer
    then record m {
      fallback_from_writer = true;
      candidates =
          if contains m.candidates.counted instance_plan.name
          then m.candidates
          else count_candidate instance_plan m.candidates;
    }
    else m

-- The body of the loop over the members; a member without an active instance is left out.
unfoldable pub count_member : Role → Option InstancePlan → MemberCounts → MemberCounts
count_member role none m = m
count_member role (some instance_plan) m = count_fallback role instance_plan (record m {
  ready_members =
      if int32_pos instance_plan.ready_replicas
      then int32_add m.ready_members 1
      else m.ready_members;
})

unfoldable pub count_members :
    Role → List (String × InstancePlan) → MemberCounts → List String → MemberCounts
count_members role by_name m [] = m
count_members role by_name m (member ∷ members) =
    count_members role by_name (count_member role (lookup member by_name) m) members

unfoldable pub role_service_summary :
    String → List InstancePlan → List String → Role → RoleServiceSummaryStatus
role_service_summary service_name instances members role =
    let m =
      count_members role (plans_by_name [] instances)
        (record {
          candidates = count_candidates role nothing_counted instances;
          ready_members = 0;
          fallback_from_writer = false;
        })
        members in
    record {
      service_name = service_name;
      desired_role = role;
      total_candidates = m.candidates.total;
      healthy = m.candidates.healthy;
      unhealthy = m.candidates.unhealthy;
      members = length members % int32_mod;
      ready_members = m.ready_members;
      fallback_from_writer = m.fallback_from_writer;
    }

unfoldable pub service_name_for_role : (String → String → String) → PgBouncerAurora → Role → String
service_name_for_role role_service_name resource role =
    let spec =
      if role == role_reader
      then resource.spec.services.reader
      else resource.spec.services.writer in
    role_service_name resource.name
      (if spec.name == "" then (if role == role_reader then "reader" else "writer") else spec.name)

unfoldable pub service_summary_status :
    (String → String → String) → PgBouncerAurora → Output → ServiceSummaryStatus
service_summary_status role_service_name resource plan =
    let active_instances = active_plan_instances plan.instances in
    record {
      writer =
          role_service_summary (service_name_for_role role_service_name resource role_writer)
            active_instances plan.membership.writer role_writer;
      reader =
          role_service_summary (service_name_for_role role_service_name resource role_reader)
            active_instances plan.membership.reader role_reader;
    }

abbrev AddsUp : Counted → Type 0
AddsUp c = (c.total ≡ int32_add c.healthy c.unhealthy) × (c.total < int32_mod)

count_candidate-AddsUp :
    (instance_plan : InstancePlan) (c : Counted)
    → AddsUp c
    → AddsUp (count_candidate instance_plan c)
unfolding count_candidate
count_candidate-AddsUp instance_plan c (sum, below) = (ground (arith, sum), omega arith)

count_candidates-AddsUp :
    (role : Role) (c : Counted) (instances : List InstancePlan)
    → AddsUp c
    → AddsUp (count_candidates role c instances)
unfolding count_candidates
count_candidates-AddsUp role c [] h = h
count_candidates-AddsUp role c (p ∷ rest) h =
    count_candidates-AddsUp role (if p.role == role then count_candidate p c else c) rest (
      if_cases AddsUp (p.role == role) (count_candidate p c) c (λ _. count_candidate-AddsUp p c h)
        (λ _. h))

-- The counts add up, and no more members are ready than have been read.
abbrev IsCounting : ℕ → MemberCounts → Type 0
IsCounting read m = AddsUp m.candidates × (m.ready_members ≤ read)

count_member-IsCounting :
    (role : Role) (found : Option InstancePlan) (m : MemberCounts) (read : ℕ)
    → IsCounting read m
    → IsCounting (suc read) (count_member role found m)
unfolding count_member
count_member-IsCounting role none m read (h, r) = (h, omega arith)
count_member-IsCounting role (some p) m read (h, r) =
    let ready : (if int32_pos p.ready_replicas
          then int32_add m.ready_members 1
          else m.ready_members)
        ≤ suc read =
      ground arith in
    if_cases (IsCounting (suc read)) (role == role_reader && p.role == role_writer) _ _
      (λ _. (
        if_cases AddsUp (contains m.candidates.counted p.name) m.candidates
            (count_candidate p m.candidates) (λ _. h)
            (λ _. count_candidate-AddsUp p m.candidates h),
        ready,
      ))
      (λ _. (h, ready))

count_members-IsCounting :
    (role : Role) (by_name : List (String × InstancePlan)) (m : MemberCounts)
    (members : List String) (read : ℕ)
    → IsCounting read m
    → IsCounting (read + length members) (count_members role by_name m members)
unfolding count_members
count_members-IsCounting role by_name m [] read (h, r) = (h, omega arith)
count_members-IsCounting role by_name m (member ∷ members) read h =
    let later =
      count_members-IsCounting role by_name (count_member role (lookup member by_name) m) members
        (suc read) (count_member-IsCounting role (lookup member by_name) m read h) in
    (later.0, omega (arith, later.1))

-- In a summary the healthy and the unhealthy candidates add up to all of them, as `int32`, and at most as
-- many members are ready as there are members.
pub role_service_summary-adds_up :
    (service_name : String) (instances : List InstancePlan) (members : List String) (role : Role)
    → let summary = role_service_summary service_name instances members role in
      (summary.total_candidates ≡ int32_add summary.healthy summary.unhealthy)
      × (summary.ready_members ≤ length members)
unfolding role_service_summary
role_service_summary-adds_up service_name instances members role =
    let counts =
      count_members-IsCounting role (plans_by_name [] instances)
        (record {
          candidates = count_candidates role nothing_counted instances;
          ready_members = 0;
          fallback_from_writer = false;
        })
        members 0
        (count_candidates-AddsUp role nothing_counted instances (refl, omega arith), omega arith) in
    (counts.0.0, omega (arith, counts.1))
