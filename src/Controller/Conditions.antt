-- ===== src/Controller/Conditions.antt =====
-- internal/controller/reconciler.go: conditions of the status, as triples of status, reason and message.
pub mod Ready
use pgbouncer_aurora_operato.Base.{
  if◌then◌else◌, is_empty, filter, int32_pos, sprint_int32, join, sort_strings, contains, lookup,
  insert, ℕ, String, ◌^^◌, Bool, false, not, ◌&&◌, Option, none, some, List, [], ◌∷◌, ◌++◌, map,
  ◌==◌,
}
use pgbouncer_aurora_operato.Api.{Role, role_reader, Condition, condition_true, condition_false}
use pgbouncer_aurora_operato.Domain.{InstancePlan}
use pgbouncer_aurora_operato.Planner.{plan, Output}
use pgbouncer_aurora_operato.Controller.Pods.{active_plan_instances}

abbrev pub Judgement : Type 0
Judgement = String × String × String

abbrev pub keep_time : Condition → Condition → Condition
keep_time condition old =
    if old.status == condition.status
      && old.reason == condition.reason
      && old.message == condition.message
    then record condition { last_transition_time = old.last_transition_time }
    else condition

-- The loop: the first condition of the type decides.
unfoldable pub transition_from : Condition → List Condition → Condition
transition_from condition [] = condition
transition_from condition (old ∷ rest) =
    let later = transition_from condition rest in
    if old.type == condition.type then keep_time condition old else later

unfoldable pub condition_with_transition :
    List Condition → String → String → String → String → ℕ → Condition
condition_with_transition previous type status reason message now =
    transition_from
      (record {
        type = type;
        status = status;
        reason = reason;
        message = message;
        last_transition_time = now;
      })
      previous

-- The name and the reason of an instance that is not yet a member.
abbrev pub pending_text : InstancePlan → String
pending_text instance_plan =
    instance_plan.name
    ^^ ":"
    ^^ (if instance_plan.reason == "" then "waiting for health/readiness" else instance_plan.reason)

abbrev pub is_pending : List String → InstancePlan → Bool
is_pending members instance_plan =
    not (contains members instance_plan.name)
    && not (instance_plan.healthy && int32_pos instance_plan.ready_replicas)

unfoldable pub traffic_transition_condition : Output → Judgement
traffic_transition_condition plan =
    let pending = map pending_text (
      filter (is_pending (plan.membership.writer ++ plan.membership.reader))
        (active_plan_instances plan.instances)) in
    if is_empty pending then (condition_false, "TrafficStable", "") else (
      condition_true,
      "TrafficTransitioning",
      "pendingMembership=" ^^ join (sort_strings pending) ",",
    )

abbrev pub unhealthy_text : InstancePlan → String
unhealthy_text instance_plan =
    if instance_plan.reason == ""
    then instance_plan.name
    else instance_plan.name ^^ ": " ^^ instance_plan.reason

unfoldable pub backend_healthy_condition : Output → Judgement
backend_healthy_condition plan =
    let instances = active_plan_instances plan.instances in
    let unhealthy =
      map unhealthy_text (filter (λ instance_plan. not instance_plan.healthy) instances) in
    if is_empty instances
    then (condition_false, "NoBackends", "no backend instances")
    else if not (is_empty unhealthy)
    then (condition_false, "BackendUnhealthy", join unhealthy "; ")
    else (condition_true, "AllBackendsHealthy", "")

unfoldable pub plans_by_name :
    List (String × InstancePlan) → List InstancePlan → List (String × InstancePlan)
plans_by_name out [] = out
plans_by_name out (instance_plan ∷ rest) =
    plans_by_name (insert instance_plan.name instance_plan out) rest

abbrev pub is_ready_member : Option InstancePlan → Bool
is_ready_member none = false
is_ready_member (some instance_plan) = int32_pos instance_plan.ready_replicas

abbrev pub not_ready_text : String → Option InstancePlan → String
not_ready_text member none = member ^^ " missing from plan"
not_ready_text member (some instance_plan) =
    member ^^ " readyReplicas=" ^^ sprint_int32 instance_plan.ready_replicas

-- The loop over the members, with what it has noted so far.
unfoldable pub ready_loop :
    List (String × InstancePlan) → String → List String → List String → Judgement
ready_loop instances role_name not_ready [] =
    (condition_false, role_name ^^ "PodsNotReady", join not_ready "; ")
ready_loop instances role_name not_ready (member ∷ members) =
    let found = lookup member instances in
    let later =
      ready_loop instances role_name (not_ready ++ not_ready_text member found ∷ []) members in
    if is_ready_member found then (condition_true, role_name ^^ "Ready", "") else later

-- The members and the name of the role.
abbrev pub role_members : Output → Role → List String
role_members plan role =
    if role == role_reader then plan.membership.reader else plan.membership.writer

abbrev pub role_text : Role → String
role_text role = if role == role_reader then "Reader" else "Writer"

unfoldable pub role_ready_condition : Output → Role → Judgement
role_ready_condition plan role =
    if is_empty (role_members plan role)
    then (if role == role_reader && plan.reader_fallback_suppressed
        then (
          condition_false, "ReaderMembersDisabledByOverride",
          plan.reader_fallback_suppressed_reason,
        )
        else (condition_false, "No" ^^ role_text role ^^ "Members", ""))
    else ready_loop (plans_by_name [] (active_plan_instances plan.instances)) (role_text role) []
        (role_members plan role)
