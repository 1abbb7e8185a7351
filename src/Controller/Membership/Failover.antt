-- ===== src/Controller/Membership/Failover.antt =====
-- internal/controller/reconciler.go (`applyWriterFailoverFastPath`): the outcomes of the fast path.
use pgbouncer_aurora_operato.Base.{
  ◌=?◌, if◌then◌else◌, Bool-cases, if_cases, is_empty, count, int32_lt, Answer, ok, failed,
  map_answer, ℕ, ◌<◌, String, ◌≡◌, refl, ap, ◌⊎◌, inl, inr, true, false, ◌&&◌, ◌||◌, List, [], ◌∷◌,
  map, arith, ◌==◌,
}
use pgbouncer_aurora_operato.Api.{PgBouncerAurora}
use pgbouncer_aurora_operato.Domain.{DiscoveryResult, InstancePlan}
use pgbouncer_aurora_operato.Planner.{plan, instance_disabled, Output, last_writer}
use pgbouncer_aurora_operato.Controller.Membership.{
  same_string_set, single_discovered_writer, ready_count, raise_ready, fail_over, skips_fast_path,
  fail_over_if_ready,
}
use pgbouncer_aurora_operato.Controller.Membership.Writers.{
  writer_names, single_writer_from-writer_names, HasNoWriter, single_writer-HasNoWriter, other_set,
  same_string_set-one,
}

-- The instances with the ready pods that were counted for one of them, if these are more than were known.
abbrev pub with_ready : String → ℕ → InstancePlan → InstancePlan
with_ready name count p =
    if p.name == name && int32_lt p.ready_replicas count
    then record p { ready_replicas = count }
    else p

-- Why a plan stays as it is for the only writer discovered: the pods are counted only after the other tests.
abbrev pub IsNoFailover : PgBouncerAurora → Answer (List (String × ℕ)) → Output → String → Type 0
IsNoFailover resource ready_counts plan writer =
    (is_empty (last_writer resource) ≡ true)
    ⊎ (last_writer resource ≡ writer ∷ [])
    ⊎ (plan.membership.writer ≡ writer ∷ [])
    ⊎ (instance_disabled resource.spec.pgbouncer writer ≡ true)
    ⊎ ((counts : List (String × ℕ)) × (ready_counts ≡ ok counts) × (ready_count counts writer ≡ 0))

abbrev pub IsKept : PgBouncerAurora → DiscoveryResult → Answer (List (String × ℕ)) → Output → Type 0
IsKept resource discovery ready_counts plan =
    (plan.frozen ≡ true)
    ⊎ (discovery.trusted ≡ false)
    ⊎ HasNoWriter discovery.instances
    ⊎ ((writer : String) × (writer_names discovery.instances ≡ writer ∷ [])
        × IsNoFailover resource ready_counts plan writer)

-- What the fast path makes of a plan: nothing, or the plan with the only writer discovered as its only one.
pub data FastPath (resource : PgBouncerAurora) (discovery : DiscoveryResult)
    (ready_counts : Answer (List (String × ℕ))) (plan : Output) (out : Output) : Type 0 where
  unchanged :
      out ≡ plan
      → IsKept resource discovery ready_counts plan
      → FastPath resource discovery ready_counts plan out
  failed_over :
      (writer : String) (counts : List (String × ℕ))
      → ready_counts ≡ ok counts
      → plan.frozen ≡ false
      → discovery.trusted ≡ true
      → writer_names discovery.instances ≡ writer ∷ []
      → instance_disabled resource.spec.pgbouncer writer ≡ false
      → is_empty (last_writer resource) ≡ false
      → ¬ (last_writer resource ≡ writer ∷ [])
      → ¬ (plan.membership.writer ≡ writer ∷ [])
      → 0 < ready_count counts writer
      → out.membership.writer ≡ writer ∷ []
      → out.membership.reader ≡ plan.membership.reader
      → out.instances ≡ map (with_ready writer (ready_count counts writer)) plan.instances
      → FastPath resource discovery ready_counts plan out

-- An error is that of the count of the pods.
abbrev pub IsFastPath :
    PgBouncerAurora → DiscoveryResult → Answer (List (String × ℕ)) → Output → Answer Output → Type 0
IsFastPath resource discovery ready_counts plan (failed error) = ready_counts ≡ failed error
IsFastPath resource discovery ready_counts plan (ok out) =
    FastPath resource discovery ready_counts plan out

raise_ready-map :
    (name : String) (count : ℕ) (plans : List InstancePlan)
    → raise_ready name count plans ≡ map (with_ready name count) plans
unfolding raise_ready
raise_ready-map name count [] = refl
raise_ready-map name count (p ∷ plans) =
    ap (λ l. with_ready name count p ∷ l) (raise_ready-map name count plans)

no_failover :
    (resource : PgBouncerAurora) (ready_counts : Answer (List (String × ℕ))) (plan : Output)
    (writer : String)
    → (same_string_set (last_writer resource) (writer ∷ [])
        || is_empty (last_writer resource)
        || instance_disabled resource.spec.pgbouncer writer
        || same_string_set plan.membership.writer (writer ∷ []))
      ≡ true
    → IsNoFailover resource ready_counts plan writer
no_failover resource ready_counts plan writer h =
    elim (Bool-cases (is_empty (last_writer resource))) [
      | inl none_applied ↦ inl none_applied
      | inr applied ↦ elim (Bool-cases (same_string_set (last_writer resource) (writer ∷ []))) [
        | inl same ↦ inr (inl (same_string_set-one (last_writer resource) writer same))
        | inr other ↦ elim (Bool-cases (instance_disabled resource.spec.pgbouncer writer)) [
          | inl off ↦ inr (inr (inr (inl off)))
          | inr on ↦ inr (
              inr (
                inl (
                  same_string_set-one plan.membership.writer writer
                    (ground (arith, h, applied, other, on)))))
        ]
      ]
    ]

-- Which of the tests before the count it was.
pub skips_fast_path-IsKept :
    (resource : PgBouncerAurora) (discovery : DiscoveryResult)
    (ready_counts : Answer (List (String × ℕ))) (plan : Output)
    → skips_fast_path resource discovery plan ≡ true
    → IsKept resource discovery ready_counts plan
unfolding skips_fast_path single_discovered_writer
skips_fast_path-IsKept resource discovery ready_counts plan h =
    let writer = single_discovered_writer discovery.instances in
    elim (Bool-cases plan.frozen) [
      | inl frozen ↦ inl frozen
      | inr live ↦ elim (Bool-cases discovery.trusted) [
        | inr untrusted ↦ inr (inl untrusted)
        | inl trusted ↦ elim (Bool-cases (writer == "")) [
          | inl nameless ↦ inr (inr (inl (single_writer-HasNoWriter discovery.instances nameless)))
          | inr named ↦ inr (
              inr (
                inr (
                  writer,
                  single_writer_from-writer_names discovery.instances named,
                  no_failover resource ready_counts plan writer
                      (ground (arith, h, live, trusted, named)),
                )))
        ]
      ]
    ]

pub fail_over_if_ready-FastPath :
    (resource : PgBouncerAurora) (discovery : DiscoveryResult)
    (ready_counts answer : Answer (List (String × ℕ))) (plan : Output)
    → ready_counts ≡ answer
    → skips_fast_path resource discovery plan ≡ false
    → IsFastPath resource discovery ready_counts plan
        (map_answer (fail_over_if_ready (single_discovered_writer discovery.instances) plan) answer)
unfolding skips_fast_path fail_over single_discovered_writer
fail_over_if_ready-FastPath resource discovery ready_counts (failed error) plan e go = e
fail_over_if_ready-FastPath resource discovery ready_counts (ok counts) plan e go =
    let writer = single_discovered_writer discovery.instances in
    let found : (writer == "") ≡ false = ground (arith, go) in
    if_cases (FastPath resource discovery ready_counts plan) (ready_count counts writer =? 0) _ _
      (λ none_ready. unchanged refl (
        inr (
          inr (
            inr (
              writer,
              single_writer_from-writer_names discovery.instances found,
              inr (inr (inr (inr (counts, e, ground (arith, none_ready))))),
            )))))
      λ ready.
        failed_over writer counts e (ground (arith, go)) (ground (arith, go))
          (single_writer_from-writer_names discovery.instances found) (ground (arith, go))
          (ground (arith, go)) (other_set (last_writer resource) writer (ground (arith, go)))
          (other_set plan.membership.writer writer (ground (arith, go))) (ground (arith, ready))
          refl refl (raise_ready-map writer (ready_count counts writer) plan.instances)
