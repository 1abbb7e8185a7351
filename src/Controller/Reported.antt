-- ===== src/Controller/Reported.antt =====
-- internal/controller/reconciler.go: the conditions of the status, all of them.
pub mod Degraded
use pgbouncer_aurora_operato.Base.{
  if◌then◌else◌, is_empty, filter, any, join, contains_text, lookup, ℕ, String, ◌^^◌, Bool, false,
  not, Option, none, some, List, [], ◌∷◌, map, ◌==◌,
}
use pgbouncer_aurora_operato.Api.{
  PgBouncerAurora, role_writer, role_reader, Condition, condition_true, condition_false,
}
use pgbouncer_aurora_operato.Domain.{DiscoveryResult, InstancePlan}
use pgbouncer_aurora_operato.Planner.{plan, Output}
use pgbouncer_aurora_operato.Controller.Conditions.{
  Judgement, condition_with_transition, traffic_transition_condition, backend_healthy_condition,
  plans_by_name, role_ready_condition,
}
use pgbouncer_aurora_operato.Controller.Pods.{active_plan_instances}
use pgbouncer_aurora_operato.Controller.Zones.{zone_aware_conflict_condition}

abbrev pub is_mismatched : InstancePlan → Bool
is_mismatched instance_plan = contains_text instance_plan.reason "role mismatch"

unfoldable pub role_mismatch_message : Output → String
role_mismatch_message plan =
    join
      (map (λ instance_plan. instance_plan.name ^^ ": " ^^ instance_plan.reason)
        (filter is_mismatched (active_plan_instances plan.instances)))
      "; "

-- A member that is not in the map reads as an instance without a role.
abbrev pub is_writer_plan : Option InstancePlan → Bool
is_writer_plan none = false
is_writer_plan (some instance_plan) = instance_plan.role == role_writer

unfoldable pub reader_fallback_from_writer : Output → Bool
reader_fallback_from_writer plan =
    let instances = plans_by_name [] (active_plan_instances plan.instances) in
    any (λ member. is_writer_plan (lookup member instances)) plan.membership.reader

unfoldable pub degraded_plan_reasons : List String → List String
degraded_plan_reasons reasons =
    filter (λ reason. not (reason == "reader fallback to writer")) reasons

-- A reason, with the detail if there is one.
abbrev pub detailed : String → String → String
detailed reason detail = if detail == "" then reason else reason ^^ ": " ^^ detail

-- `if shown { reasons = append(reasons, reason) }`, and the reasons after it.
abbrev pub reason_if : Bool → String → List String → List String
reason_if shown reason reasons = if shown then reason ∷ reasons else reasons

unfoldable pub degraded_reasons :
    DiscoveryResult → Output → String → Judgement → Judgement → Judgement → String → List String
degraded_reasons discovery plan monitor_err backend_healthy writer_ready reader_ready mismatch =
    reason_if (not discovery.trusted) (detailed "discovery untrusted" discovery.reason) (
      reason_if (not (monitor_err == "")) ("monitor failed: " ^^ monitor_err) (
        reason_if plan.frozen "plan frozen" (
          reason_if (not (backend_healthy.0 == condition_true))
            (detailed "backend unhealthy" backend_healthy.2)
            (reason_if (not (writer_ready.0 == condition_true))
              (detailed "writer not ready" writer_ready.2)
              (reason_if (not (reader_ready.0 == condition_true))
                (detailed "reader not ready" reader_ready.2)
                (reason_if (not (mismatch == "")) ("role mismatch: " ^^ mismatch)
                  (degraded_plan_reasons plan.reasons)))))))

abbrev pub degraded_for : List String → Judgement
degraded_for reasons =
    if is_empty reasons
    then (condition_false, "Healthy", "")
    else (condition_true, "Degraded", join reasons "; ")

unfoldable pub degraded_condition :
    DiscoveryResult → Output → String → Judgement → Judgement → Judgement → String → Judgement
degraded_condition discovery plan monitor_err backend_healthy writer_ready reader_ready mismatch =
    degraded_for (
      degraded_reasons discovery plan monitor_err backend_healthy writer_ready reader_ready
        mismatch)

-- The status and the reason of a condition that is true just if the test holds.
abbrev pub judge : Bool → String → String → String → Judgement
judge test holds fails message =
    if test then (condition_true, holds, message) else (condition_false, fails, message)

abbrev pub fallback_judgement : Output → Judgement
fallback_judgement plan =
    if reader_fallback_from_writer plan
    then (condition_true, "FallbackFromWriter", "")
    else if plan.reader_fallback_suppressed
    then (condition_false, "SuppressedByDisabledReaders", "")
    else (condition_false, "ReaderNormal", "")

-- The conditions before their times are set: the type and the judgement of each.
unfoldable pub judgements_for :
    PgBouncerAurora → DiscoveryResult → Output → String → List (String × Judgement)
judgements_for resource discovery plan monitor_err =
    let backend_healthy = backend_healthy_condition plan in
    let writer_ready = role_ready_condition plan role_writer in
    let reader_ready = role_ready_condition plan role_reader in
    let mismatch = role_mismatch_message plan in
    (
      "DiscoveryTrusted",
      judge discovery.trusted "DiscoveryTrusted" "DiscoveryUntrusted" discovery.reason,
    )
    ∷ ("MonitorSucceeded", judge (monitor_err == "") "MonitorSucceeded" "MonitorFailed" monitor_err)
    ∷ ("Reconciled", judge (not plan.frozen) "Applied" "Frozen" "")
    ∷ ("Frozen", judge plan.frozen "Frozen" "NotFrozen" (join plan.reasons "; "))
    ∷ ("BackendHealthy", backend_healthy)
    ∷ ("WriterReady", writer_ready)
    ∷ ("ReaderReady", reader_ready)
    ∷ ("ReaderFallback", fallback_judgement plan)
    ∷ (
      "ReaderFallbackSuppressed",
      judge plan.reader_fallback_suppressed plan.reader_fallback_suppressed_reason "NotSuppressed"
          "",
    )
    ∷ ("RoleMismatch", judge (not (mismatch == "")) "RoleMismatch" "NoRoleMismatch" mismatch)
    ∷ ("TrafficTransitioning", traffic_transition_condition plan)
    ∷ ("ZoneAwareConflict", zone_aware_conflict_condition resource plan)
    ∷ (
      "Degraded",
      degraded_condition discovery plan monitor_err backend_healthy writer_ready reader_ready
          mismatch,
    )
    ∷ []

abbrev pub timed_condition : List Condition → ℕ → String × Judgement → Condition
timed_condition previous now (type, (status, reason, message)) =
    condition_with_transition previous type status reason message now

unfoldable pub conditions_for :
    PgBouncerAurora → List Condition → DiscoveryResult → Output → String → ℕ → List Condition
conditions_for resource previous discovery plan monitor_err now =
    map (timed_condition previous now) (judgements_for resource discovery plan monitor_err)
