-- ===== src/Planner/Writers.antt =====
-- internal/planner/planner.go: the writer membership that a plan ends with.
use pgbouncer_aurora_operato.Base.{
  ◌=?◌, Bool-cases, length, length-filter-le, ◌≤◌, ◌<◌, String, ◌≡◌, refl, sym, ap, subst, ◌∙◌, ◌⊎◌,
  inl, inr, List, [], ◌∷◌, arith,
}
use pgbouncer_aurora_operato.Api.{PgBouncerAurora, MissingInstanceStatus}
use pgbouncer_aurora_operato.Planner.{
  frozen_plan, observed_plan, kept_plan, stabilized_plan, plan, plan_trusted, plan_untrusted,
  filter_enabled_instances, previous_missing_membership_before_remove_threshold,
  previous_current_membership, Input, Output, last_writer,
  previous_missing_writer_before_remove_threshold, previous_missing_reader_before_remove_threshold,
  without_writer, ambiguous_writer, stabilize_writers, stabilize_writer_membership,
  skips_missing_reader, preserve_missing_readers, preserve_missing_reader_membership,
  without_reader, stabilize_reader_membership,
}

without_reader-writer :
    (out : Output) (names : List String)
    → (without_reader out names).membership.writer ≡ out.membership.writer
unfolding without_reader
without_reader-writer out [] = refl
without_reader-writer out (name ∷ names) = refl

-- The steps that follow leave the writer membership alone.
pub stabilize_reader_membership-writer :
    (resource : PgBouncerAurora) (out : Output) (missing : List MissingInstanceStatus)
    → (stabilize_reader_membership resource out missing).membership.writer ≡ out.membership.writer
unfolding stabilize_reader_membership
stabilize_reader_membership-writer resource out missing = ground (
  arith,
  without_reader-writer out (previous_missing_reader_before_remove_threshold resource missing),
)

preserve_missing_readers-writer :
    (resource : PgBouncerAurora) (current : List String) (out : Output)
    (missing : List MissingInstanceStatus)
    → (preserve_missing_readers resource current out missing).membership.writer
      ≡ out.membership.writer
unfolding preserve_missing_readers
preserve_missing_readers-writer resource current out [] = refl
preserve_missing_readers-writer resource current out (missing ∷ rest) =
    elim (Bool-cases (skips_missing_reader resource current missing)) [
      | inl e ↦
          rw (e, preserve_missing_readers)
            (preserve_missing_readers-writer resource current out rest)
      | inr e ↦
          rw (e, preserve_missing_readers) (preserve_missing_readers-writer resource current _ rest)
    ]

pub preserve_missing_reader_membership-writer :
    (resource : PgBouncerAurora) (out : Output) (missing : List MissingInstanceStatus)
    → (preserve_missing_reader_membership resource out missing).membership.writer
      ≡ out.membership.writer
unfolding preserve_missing_reader_membership
preserve_missing_reader_membership-writer resource out missing =
    ground (arith, preserve_missing_readers-writer resource out.membership.reader out missing)

without_writer-writer :
    (out : Output) (names : List String)
    → out.membership.writer ≡ []
    → (without_writer out names).membership.writer ≡ names
unfolding without_writer
without_writer-writer out [] h = h
without_writer-writer out (name ∷ names) h = refl

-- The possible outcomes for the writer membership, by the number of healthy writers.
pub data WriterOutcome (resource : PgBouncerAurora) (missing : List MissingInstanceStatus)
    (found writer : List String) : Type 0 where
  missing_kept :
      found ≡ []
      → writer ≡ previous_missing_writer_before_remove_threshold resource missing
      → WriterOutcome resource missing found writer
  single : length found ≡ 1 → writer ≡ found → WriterOutcome resource missing found writer
  applied_kept :
      1 < length found
      → writer ≡ previous_current_membership (last_writer resource) found
      → length writer ≡ 1
      → WriterOutcome resource missing found writer
  emptied : 1 < length found → writer ≡ [] → WriterOutcome resource missing found writer

ambiguous_writer-cases :
    (out : Output) (previous : List String)
    → (((ambiguous_writer out previous).membership.writer ≡ previous) × (length previous ≡ 1))
      ⊎ ((ambiguous_writer out previous).membership.writer ≡ [])
unfolding ambiguous_writer
ambiguous_writer-cases out previous = elim (Bool-cases (length previous =? 1)) [
  | inl e ↦ inl (rw (e, ambiguous_writer) refl, ground arith)
  | inr e ↦ inr (rw (e, ambiguous_writer) refl)
]

stabilize_writers-outcome :
    (resource : PgBouncerAurora) (out : Output) (missing : List MissingInstanceStatus)
    (found : List String)
    → out.membership.writer ≡ found
    → WriterOutcome resource missing found
        (stabilize_writers resource out missing found).membership.writer
unfolding stabilize_writers
stabilize_writers-outcome resource out missing [] e =
    missing_kept refl (without_writer-writer out _ e)
stabilize_writers-outcome resource out missing (name ∷ []) e = single refl e
stabilize_writers-outcome resource out missing (name ∷ other ∷ names) e =
    elim (ambiguous_writer-cases out
      (previous_current_membership (last_writer resource) (name ∷ other ∷ names))) [
        | inl (kept, one) ↦ applied_kept (omega arith) kept (omega (arith, ap length kept))
        | inr none_left ↦ emptied (omega arith) none_left
      ]

pub stabilized_plan-writer :
    (input : Input)
    → (stabilized_plan input).membership.writer
      ≡ (stabilize_writer_membership input.resource
          (observed_plan input)
          input.missing_instances).membership.writer
unfolding stabilized_plan kept_plan
stabilized_plan-writer input =
    stabilize_reader_membership-writer input.resource _ input.missing_instances
    ∙ preserve_missing_reader_membership-writer input.resource _ input.missing_instances

pub stabilized_plan-outcome :
    (input : Input)
    → WriterOutcome input.resource input.missing_instances
        (observed_plan input).membership.writer
        (stabilized_plan input).membership.writer
unfolding stabilize_writer_membership
stabilized_plan-outcome input =
    rw (stabilized_plan-writer input) (
      stabilize_writers-outcome input.resource (observed_plan input) input.missing_instances _ refl)

previous_missing-le :
    (resource : PgBouncerAurora) (missing : List MissingInstanceStatus)
    → length (previous_missing_writer_before_remove_threshold resource missing)
      ≤ length (last_writer resource)
unfolding previous_missing_writer_before_remove_threshold filter_enabled_instances
    previous_missing_membership_before_remove_threshold
previous_missing-le resource missing = omega (arith, length-filter-le {0})

outcome-le-one :
    (resource : PgBouncerAurora) (missing : List MissingInstanceStatus) {found writer : List String}
    → WriterOutcome resource missing found writer
    → length (last_writer resource) ≤ 1
    → length writer ≤ 1
outcome-le-one resource missing (missing_kept e w) h =
    omega (arith, ap length w, previous_missing-le resource missing)
outcome-le-one resource missing (single e w) h = omega (arith, ap length w)
outcome-le-one resource missing (applied_kept e w one) h = omega arith
outcome-le-one resource missing (emptied e w) h = omega (arith, ap length w)

-- A plan never has two writers, if the membership that was applied last has not.
pub plan-writer-le-one :
    (input : Input)
    → length (last_writer input.resource) ≤ 1
    → length (plan input).membership.writer ≤ 1
unfolding frozen_plan
plan-writer-le-one input h = elim (Bool-cases input.discovery_trusted) [
  | inl e ↦
      subst (λ out. length out.membership.writer ≤ 1) (sym (plan_trusted input e))
        (outcome-le-one input.resource input.missing_instances (stabilized_plan-outcome input) h)
  | inr e ↦ subst (λ out. length out.membership.writer ≤ 1) (sym (plan_untrusted input e)) h
]
