-- ===== src/Planner/Justified.antt =====
-- internal/planner/planner.go: why a name is in the membership of a trusted plan.
use pgbouncer_aurora_operato.Base.{
  or_left, or_right, filter, contains, contains-filter, String, ◌≡◌, sym, ap, subst, ◌∙◌, Bool,
  true, not, ◌&&◌, ◌||◌, List, arith,
}
use pgbouncer_aurora_operato.Api.{PgBouncerAurora, role_writer, MissingInstanceStatus}
use pgbouncer_aurora_operato.Planner.{
  plan, plan_trusted, instance_disabled, filter_enabled_instances, active_missing,
  previous_missing_membership_before_remove_threshold, previous_current_membership, Input,
  remove_threshold, last_writer, previous_missing_writer_before_remove_threshold,
}
use pgbouncer_aurora_operato.Planner.Serving.{is_serving, observed_plan-writer}
use pgbouncer_aurora_operato.Planner.Frame.{stabilized_plan-base}
use pgbouncer_aurora_operato.Planner.Writers.{
  WriterOutcome, missing_kept, single, applied_kept, emptied, stabilized_plan-outcome,
}

-- A writer that was applied last, is missing for fewer rounds than the threshold, and is not
-- switched off.
abbrev pub is_kept_writer : PgBouncerAurora → List MissingInstanceStatus → String → Bool
is_kept_writer resource missing name =
    active_missing missing (remove_threshold resource) name
    && contains (last_writer resource) name
    && not (instance_disabled resource.spec.pgbouncer name)

contains-previous_missing_writer :
    (resource : PgBouncerAurora) (missing : List MissingInstanceStatus) (name : String)
    → contains (previous_missing_writer_before_remove_threshold resource missing) name ≡ true
    → is_kept_writer resource missing name ≡ true
unfolding previous_missing_writer_before_remove_threshold filter_enabled_instances
    previous_missing_membership_before_remove_threshold
contains-previous_missing_writer resource missing name h = ground (
  arith,
  contains-filter (λ value. not (instance_disabled resource.spec.pgbouncer value))
      (filter (active_missing missing (remove_threshold resource)) (last_writer resource)) name,
  contains-filter (active_missing missing (remove_threshold resource)) (last_writer resource) name,
)

contains-previous_current :
    (previous current : List String) (name : String)
    → contains (previous_current_membership previous current) name ≡ true
    → contains current name ≡ true
unfolding previous_current_membership
contains-previous_current previous current name h =
    ground (arith, contains-filter (contains current) previous name)

outcome-justified :
    (resource : PgBouncerAurora) (missing : List MissingInstanceStatus) {found writer : List String}
    (name : String)
    → WriterOutcome resource missing found writer
    → contains writer name ≡ true
    → (contains found name || is_kept_writer resource missing name) ≡ true
outcome-justified resource missing {found} name (missing_kept e w) h =
    or_right (contains found name) (
      contains-previous_missing_writer resource missing name
        (subst (λ names. contains names name ≡ true) w h))
outcome-justified resource missing name (single e w) h =
    or_left _ (subst (λ names. contains names name ≡ true) w h)
outcome-justified resource missing {found} name (applied_kept e w one) h = or_left _ (
    contains-previous_current (last_writer resource) found name
      (subst (λ names. contains names name ≡ true) w h))
outcome-justified resource missing name (emptied e w) h =
    absurd (cc (subst (λ names. contains names name ≡ true) w h))

module _ (input : Input) (trusted : input.discovery_trusted ≡ true) (name : String) where
  -- A writer of a trusted plan is a discovered healthy writer, or was applied last, is missing
  -- for fewer rounds than the threshold and is not switched off.
  pub plan_writer_justified :
      contains (plan input).membership.writer name ≡ true
      → (is_serving role_writer (plan input).instances name
          || is_kept_writer input.resource input.missing_instances name)
        ≡ true
  plan_writer_justified h =
      ap
        (λ plans.
          is_serving role_writer plans name
          || is_kept_writer input.resource input.missing_instances name)
        (ap (λ out. out.instances) (plan_trusted input trusted) ∙ (stabilized_plan-base input).0)
      ∙ ap (λ b. b || is_kept_writer input.resource input.missing_instances name)
          (sym (observed_plan-writer input name))
      ∙ outcome-justified input.resource input.missing_instances name
          (stabilized_plan-outcome input)
          (subst (λ out. contains out.membership.writer name ≡ true) (plan_trusted input trusted) h)
