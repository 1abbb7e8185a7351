-- ===== src/Planner/Frame.antt =====
-- internal/planner/planner.go: what the steps that stabilise a plan leave alone.
use pgbouncer_aurora_operato.Base.{
  Bool-cases, String, ◌≡◌, refl, ◌∙◌, inl, inr, false, List, [], ◌∷◌, arith,
}
use pgbouncer_aurora_operato.Api.{PgBouncerAurora, MissingInstanceStatus}
use pgbouncer_aurora_operato.Planner.{
  observed_output, observed_plan, kept_plan, stabilized_plan, Input, Output,
  previous_missing_writer_before_remove_threshold, previous_missing_reader_before_remove_threshold,
  without_writer, ambiguous_writer, stabilize_writers, stabilize_writer_membership,
  skips_missing_reader, preserve_missing_readers, preserve_missing_reader_membership,
  without_reader, stabilize_reader_membership,
}

module _ (resource : PgBouncerAurora) where
  -- The instances, the fallback's switch, and for the writer's step the readers.
  abbrev pub SameBase : Output → Output → Type 0
  SameBase out out' =
      (out'.instances ≡ out.instances)
      × (out'.reader_fallback_suppressed ≡ out.reader_fallback_suppressed)
      × (out'.frozen ≡ out.frozen)

  without_writer-base :
      (out : Output) (names : List String)
      → SameBase out (without_writer out names)
        × ((without_writer out names).membership.reader ≡ out.membership.reader)
  unfolding without_writer
  without_writer-base out [] = ((refl, refl, refl), refl)
  without_writer-base out (name ∷ names) = ((refl, refl, refl), refl)

  pub stabilize_writers-base :
      (out : Output) (missing : List MissingInstanceStatus) (found : List String)
      → SameBase out (stabilize_writers resource out missing found)
        × ((stabilize_writers resource out missing found).membership.reader ≡ out.membership.reader)
  unfolding stabilize_writers ambiguous_writer
  stabilize_writers-base out missing [] =
      without_writer-base out (previous_missing_writer_before_remove_threshold resource missing)
  stabilize_writers-base out missing (name ∷ []) = ((refl, refl, refl), refl)
  stabilize_writers-base out missing (name ∷ other ∷ names) = ground arith

  preserve_missing_readers-base :
      (current : List String) (out : Output) (missing : List MissingInstanceStatus)
      → SameBase out (preserve_missing_readers resource current out missing)
  unfolding preserve_missing_readers
  preserve_missing_readers-base current out [] = (refl, refl, refl)
  preserve_missing_readers-base current out (missing ∷ rest) =
      elim (Bool-cases (skips_missing_reader resource current missing)) [
        | inl e ↦ rw (e, preserve_missing_readers) (preserve_missing_readers-base current out rest)
        | inr e ↦ rw (e, preserve_missing_readers) (preserve_missing_readers-base current _ rest)
      ]

  preserve_missing_reader_membership-base :
      (out : Output) (missing : List MissingInstanceStatus)
      → SameBase out (preserve_missing_reader_membership resource out missing)
  unfolding preserve_missing_reader_membership
  preserve_missing_reader_membership-base out missing =
      ground (arith, preserve_missing_readers-base out.membership.reader out missing)

  without_reader-base :
      (out : Output) (names : List String) → SameBase out (without_reader out names)
  unfolding without_reader
  without_reader-base out [] = (refl, refl, refl)
  without_reader-base out (name ∷ names) = (refl, refl, refl)

  pub stabilize_reader_membership-base :
      (out : Output) (missing : List MissingInstanceStatus)
      → SameBase out (stabilize_reader_membership resource out missing)
  unfolding stabilize_reader_membership
  stabilize_reader_membership-base out missing = ground (
    arith,
    without_reader-base out (previous_missing_reader_before_remove_threshold resource missing),
  )

module _ (input : Input) where
  -- What the loop planned stands in the final plan.
  pub stabilized_plan-base :
      ((stabilized_plan input).instances ≡ (observed_plan input).instances)
      × ((stabilized_plan input).reader_fallback_suppressed
          ≡ (observed_plan input).reader_fallback_suppressed)
      × ((stabilized_plan input).frozen ≡ false)
  unfolding stabilized_plan kept_plan stabilize_writer_membership observed_plan observed_output
  stabilized_plan-base =
      let resource = input.resource in
      let missing = input.missing_instances in
      let out = observed_plan input in
      let stable = stabilize_writer_membership resource out missing in
      let kept = preserve_missing_reader_membership resource stable missing in
      let (a, b, c) = (stabilize_writers-base resource out missing out.membership.writer).0 in
      let (d, e, f) = preserve_missing_reader_membership-base resource stable missing in
      let (g, h, k) = stabilize_reader_membership-base resource kept missing in
      (g ∙ d ∙ a, h ∙ e ∙ b, k ∙ f ∙ c)
