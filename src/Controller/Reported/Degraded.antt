-- ===== src/Controller/Reported/Degraded.antt =====
-- internal/controller/reconciler.go: what it means that the condition `Degraded` is false.
use pgbouncer_aurora_operato.Base.{
  if◌then◌else◌, if_cases, is_empty, any, lookup, ℕ, String, ◌≡◌, refl, sym, ap, ap₂, ◌∙◌, Bool,
  true, false, not, ◌&&◌, List, [], ◌∷◌, map, ◌==◌,
}
use pgbouncer_aurora_operato.Api.{
  PgBouncerAurora, Role, role_writer, role_reader, Condition, condition_true, condition_false,
}
use pgbouncer_aurora_operato.Domain.{DiscoveryResult}
use pgbouncer_aurora_operato.Planner.{plan, Output}
use pgbouncer_aurora_operato.Controller.Cache.{trusted_in}
use pgbouncer_aurora_operato.Controller.Conditions.{
  Judgement, transition_from, condition_with_transition, backend_healthy_condition, plans_by_name,
  is_ready_member, role_members, role_ready_condition,
}
use pgbouncer_aurora_operato.Controller.Conditions.Ready.{
  role_ready_condition-loop, backend_healthy_condition-any,
}
use pgbouncer_aurora_operato.Controller.Pods.{active_plan_instances}
use pgbouncer_aurora_operato.Controller.Reported.{
  role_mismatch_message, degraded_plan_reasons, reason_if, degraded_reasons, degraded_for,
  degraded_condition, judgements_for, timed_condition, conditions_for,
}

-- The status of the first condition of the type.
abbrev pub status_of : String → List Condition → String
status_of type [] = ""
status_of type (condition ∷ rest) =
    let later = status_of type rest in if condition.type == type then condition.status else later

-- Some member of the role is an active instance with a ready pod.
abbrev pub has_ready_member : Output → Role → Bool
has_ready_member plan role =
    any
      (λ member.
        is_ready_member (lookup member (plans_by_name [] (active_plan_instances plan.instances))))
      (role_members plan role)

abbrev pub all_true : List Bool → Bool
all_true [] = true
all_true (b ∷ bs) = b && all_true bs

and_true : (b : Bool) → b ≡ (b && true)
and_true true = refl
and_true false = refl

-- The discovery and the monitor succeeded, the plan is in force and has nothing to note, all active
-- backends are healthy with the role that was discovered, and each service has a ready member.
abbrev pub all_well : DiscoveryResult → Output → String → Bool
all_well discovery plan monitor_err =
    let active = active_plan_instances plan.instances in
    all_true (
      discovery.trusted
      ∷ (monitor_err == "")
      ∷ not plan.frozen
      ∷ (not (is_empty active) && not (any (λ p. not p.healthy) active))
      ∷ has_ready_member plan role_writer
      ∷ has_ready_member plan role_reader
      ∷ (role_mismatch_message plan == "")
      ∷ is_empty (degraded_plan_reasons plan.reasons)
      ∷ [])

degraded_for-false :
    (reasons : List String) → ((degraded_for reasons).0 == condition_false) ≡ is_empty reasons
degraded_for-false [] = refl
degraded_for-false (reason ∷ reasons) = refl

reason_first :
    (b : Bool) {rest : Bool} (reason : String) (reasons : List String)
    → is_empty reasons ≡ rest
    → is_empty (reason_if (not b) reason reasons) ≡ (b && rest)
reason_first true reason reasons h = h
reason_first false reason reasons h = refl

reason_unless :
    (b : Bool) {rest : Bool} (reason : String) (reasons : List String)
    → is_empty reasons ≡ rest
    → is_empty (reason_if b reason reasons) ≡ (not b && rest)
reason_unless true reason reasons h = refl
reason_unless false reason reasons h = h

-- The tests that decide the condition, those of the other conditions as arguments.
abbrev well : DiscoveryResult → Output → String → String → Bool → Bool → Bool → Bool
well discovery plan monitor_err mismatch backend writer reader = all_true (
    discovery.trusted
    ∷ (monitor_err == "")
    ∷ not plan.frozen
    ∷ backend
    ∷ writer
    ∷ reader
    ∷ (mismatch == "")
    ∷ is_empty (degraded_plan_reasons plan.reasons)
    ∷ [])

is_empty-degraded_reasons :
    (discovery : DiscoveryResult) (plan : Output) (monitor_err mismatch : String)
    (backend writer reader : Judgement)
    → is_empty (degraded_reasons discovery plan monitor_err backend writer reader mismatch)
      ≡ well discovery plan monitor_err mismatch
          (backend.0 == condition_true)
          (writer.0 == condition_true)
          (reader.0 == condition_true)
unfolding degraded_reasons
is_empty-degraded_reasons discovery plan monitor_err mismatch backend writer reader =
    reason_first discovery.trusted _ _ (
      reason_first (monitor_err == "") _ _ (
        reason_unless plan.frozen _ _ (
          reason_first (backend.0 == condition_true) _ _ (
            reason_first (writer.0 == condition_true) _ _ (
              reason_first (reader.0 == condition_true) _ _ (
                reason_first (mismatch == "") _ _
                  (and_true (is_empty (degraded_plan_reasons plan.reasons)))))))))

-- Setting the time keeps the type and the status.
abbrev pub KeepsStatus : Condition → Condition → Type 0
KeepsStatus condition timed = (timed.type ≡ condition.type) × (timed.status ≡ condition.status)

pub transition_from-KeepsStatus :
    (condition : Condition) (previous : List Condition)
    → KeepsStatus condition (transition_from condition previous)
unfolding transition_from
transition_from-KeepsStatus condition [] = (refl, refl)
transition_from-KeepsStatus condition (old ∷ rest) =
    let same =
      old.status == condition.status
      && old.reason == condition.reason
      && old.message == condition.message in
    if_cases (KeepsStatus condition) (old.type == condition.type) _ _
      (λ _. if_cases (KeepsStatus condition) same _ _ (λ _. (refl, refl)) (λ _. (refl, refl)))
      (λ _. transition_from-KeepsStatus condition rest)

abbrev judged_of : String → List (String × Judgement) → String
judged_of type [] = ""
judged_of type ((other, judgement) ∷ rest) =
    let later = judged_of type rest in if other == type then judgement.0 else later

status_of-timed :
    (type : String) (previous : List Condition) (now : ℕ) (judgements : List (String × Judgement))
    → status_of type (map (timed_condition previous now) judgements) ≡ judged_of type judgements
unfolding condition_with_transition
status_of-timed type previous now [] = refl
status_of-timed type previous now ((other, judgement) ∷ rest) =
    let kept =
      transition_from-KeepsStatus
        (record {
          type = other;
          status = judgement.0;
          reason = judgement.1;
          message = judgement.2;
          last_transition_time = now;
        })
        previous in
    let later = status_of-timed type previous now rest in
    ap₂
      (λ (t s : String).
        if t == type then s else status_of type (map (timed_condition previous now) rest))
      kept.0 kept.1
    ∙ ap (λ s. if other == type then judgement.0 else s) later

if_both {ℓ} :
    {A : Type ℓ} (f : A → Bool) (b : Bool) (x y : A) {later : Bool}
    → later ≡ f y
    → (if b then f x else later) ≡ f (if b then x else y)
if_both f true x y h = refl
if_both f false x y h = h

trusted_in-status_of :
    (conditions : List Condition)
    → trusted_in conditions ≡ (status_of "DiscoveryTrusted" conditions == condition_true)
unfolding trusted_in
trusted_in-status_of [] = refl
trusted_in-status_of (condition ∷ rest) =
    if_both (λ (s : String). s == condition_true) (condition.type == "DiscoveryTrusted") _ _
      (trusted_in-status_of rest)

module _ (resource : PgBouncerAurora) (previous : List Condition) (discovery : DiscoveryResult)
    (plan : Output) (monitor_err : String) (now : ℕ) where
  -- The condition `Degraded` that is stored is false just if all is well.
  pub conditions_for-degraded :
      (status_of "Degraded" (conditions_for resource previous discovery plan monitor_err now)
        == condition_false)
      ≡ all_well discovery plan monitor_err
  unfolding conditions_for judgements_for degraded_condition
  conditions_for-degraded =
      let mismatch = role_mismatch_message plan in
      let writer = role_ready_condition plan role_writer in
      let reader = role_ready_condition plan role_reader in
      ap (λ s. s == condition_false)
        (status_of-timed "Degraded" previous now
          (judgements_for resource discovery plan monitor_err))
      ∙ degraded_for-false _
      ∙ is_empty-degraded_reasons discovery plan monitor_err mismatch
          (backend_healthy_condition plan) writer reader
      ∙ ap
          (λ b.
            well discovery plan monitor_err mismatch b (writer.0 == condition_true)
              (reader.0 == condition_true))
          (backend_healthy_condition-any plan)
      ∙ ap₂ (well discovery plan monitor_err mismatch _)
          (role_ready_condition-loop plan role_writer) (role_ready_condition-loop plan role_reader)

  -- The condition `DiscoveryTrusted` that is stored tells whether the discovery was trusted.
  pub conditions_for-trusted :
      trusted_in (conditions_for resource previous discovery plan monitor_err now)
      ≡ discovery.trusted
  unfolding conditions_for judgements_for trusted_in
  conditions_for-trusted =
      trusted_in-status_of (conditions_for resource previous discovery plan monitor_err now)
      ∙ ap (λ s. s == condition_true)
          (status_of-timed "DiscoveryTrusted" previous now
            (judgements_for resource discovery plan monitor_err))
      ∙ if_cases (λ (j : Judgement). (j.0 == condition_true) ≡ discovery.trusted) discovery.trusted
          _ _ (λ e. sym e) (λ e. sym e)
