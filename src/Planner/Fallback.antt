-- ===== src/Planner/Fallback.antt =====
-- internal/planner/planner.go: every way in which the reader membership of a plan can end.
use pgbouncer_aurora_operato.Base.{
  if◌then◌else◌, is_empty, contains, contains-filter, String, ◌≡◌, refl, sym, ap, subst, fun_ext,
  ◌∙◌, ◌⊎◌, inl, inr, Bool, true, false, not, ◌&&◌, ◌||◌, List, [], ◌∷◌, arith, eq_refl,
}
use pgbouncer_aurora_operato.Api.{PgBouncerAurora, role_reader, MissingInstanceStatus}
use pgbouncer_aurora_operato.Planner.{
  observed_plan, kept_plan, stabilized_plan, plan, plan_trusted, instance_disabled,
  filter_enabled_instances, active_missing, previous_missing_membership_before_remove_threshold,
  Input, Output, remove_threshold, last_reader, previous_missing_reader_before_remove_threshold,
  reader_empty_fallback_enabled, without_reader, stabilize_reader_membership,
}
use pgbouncer_aurora_operato.Planner.Serving.{is_serving}
use pgbouncer_aurora_operato.Planner.Frame.{
  SameBase, stabilize_reader_membership-base, stabilized_plan-base,
}
use pgbouncer_aurora_operato.Planner.Readers.{is_kept_reader, is_wanted_reader, kept_plan-reader}
use pgbouncer_aurora_operato.Planner.Writers.{stabilize_reader_membership-writer}

-- Who the readers are, from who is wanted, the fallback's switches and the writers.
pub data ReaderOutcome (wanted : String → Bool) (suppressed enabled : Bool)
    (writer reader : List String) : Type 0 where
  served :
      is_empty reader ≡ false
      → ((name : String) → contains reader name ≡ wanted name)
      → ReaderOutcome wanted suppressed enabled writer reader
  fell_back :
      ((name : String) → wanted name ≡ false)
      → suppressed ≡ false
      → enabled ≡ true
      → is_empty writer ≡ false
      → reader ≡ writer
      → ReaderOutcome wanted suppressed enabled writer reader
  nobody :
      ((name : String) → wanted name ≡ false)
      → (suppressed ≡ true) ⊎ (enabled ≡ false) ⊎ (is_empty writer ≡ true)
      → reader ≡ []
      → ReaderOutcome wanted suppressed enabled writer reader

is_empty-eq {ℓ} : {A : Type ℓ} (xs : List A) → is_empty xs ≡ true → xs ≡ []
is_empty-eq [] h = refl
is_empty-eq (x ∷ xs) h = cc

empty_of_contains : (xs : List String) → ((name : String) → contains xs name ≡ false) → xs ≡ []
empty_of_contains [] h = refl
empty_of_contains (x ∷ xs) h = ground (arith, h x, eq_refl x)

without_reader-nil :
    (out : Output) (names : List String) → names ≡ [] → without_reader out names ≡ out
unfolding without_reader
without_reader-nil out [] h = refl
without_reader-nil out (name ∷ names) h = cc

-- The readers that the last branch would keep are kept before.
contains-previous_missing_reader :
    (resource : PgBouncerAurora) (missing : List MissingInstanceStatus) (name : String)
    → contains (previous_missing_reader_before_remove_threshold resource missing) name
      ≡ is_kept_reader resource missing name
unfolding previous_missing_reader_before_remove_threshold filter_enabled_instances
    previous_missing_membership_before_remove_threshold
contains-previous_missing_reader resource missing name =
    contains-filter (λ value. not (instance_disabled resource.spec.pgbouncer value)) _ name
    ∙ ap (λ b. if b then not (instance_disabled resource.spec.pgbouncer name) else false)
        (contains-filter (active_missing missing (remove_threshold resource)) (last_reader resource)
          name)
    ∙ if_and (contains (last_reader resource) name)
        (active_missing missing (remove_threshold resource) name)
        (not (instance_disabled resource.spec.pgbouncer name))
  where
    if_and :
        (last active enabled : Bool)
        → (if (if last then active else false) then enabled else false)
          ≡ (active && last && enabled)
    if_and true true enabled = refl
    if_and true false enabled = refl
    if_and false true enabled = refl
    if_and false false enabled = refl

flip_not : {a b : Bool} → not a ≡ b → a ≡ not b
flip_not {a = true} h = ap not h
flip_not {a = false} h = ap not h

module _ (resource : PgBouncerAurora) (out : Output) (missing : List MissingInstanceStatus)
    (serving : String → Bool)
    (known : (name : String)
      → contains out.membership.reader name
        ≡ (serving name || is_kept_reader resource missing name)) where
  abbrev wanted : String → Bool
  wanted name = serving name || is_kept_reader resource missing name

  abbrev Outcome : Output → Type 0
  Outcome done =
      ReaderOutcome wanted out.reader_fallback_suppressed (reader_empty_fallback_enabled resource)
        out.membership.writer done.membership.reader

  unwanted : is_empty out.membership.reader ≡ true → (name : String) → wanted name ≡ false
  unwanted e name =
      sym (known name) ∙ ap (λ names. contains names name) (is_empty-eq out.membership.reader e)

  kept_nobody :
      is_empty out.membership.reader ≡ true
      → previous_missing_reader_before_remove_threshold resource missing ≡ []
  kept_nobody e =
      empty_of_contains (previous_missing_reader_before_remove_threshold resource missing) λ name.
        contains-previous_missing_reader resource missing name
        ∙ or_false (serving name) (is_kept_reader resource missing name) (unwanted e name)
    where
      or_false : (a b : Bool) → (a || b) ≡ false → b ≡ false
      or_false true b h = cc
      or_false false b h = h

  without_kept :
      is_empty out.membership.reader ≡ true
      → (without_reader out
          (previous_missing_reader_before_remove_threshold resource missing)).membership.reader
        ≡ []
  without_kept e =
      ap (λ done. done.membership.reader) (without_reader-nil out _ (kept_nobody e))
      ∙ is_empty-eq out.membership.reader e

  Outcome-by :
      (readers suppressed enabled writers : Bool) (done : Output)
      → not (is_empty out.membership.reader) ≡ readers
      → out.reader_fallback_suppressed ≡ suppressed
      → reader_empty_fallback_enabled resource ≡ enabled
      → not (is_empty out.membership.writer) ≡ writers
      → done.membership.reader ≡ (
          if readers
          then out.membership.reader
          else if suppressed
          then out.membership.reader
          else if enabled && writers
          then out.membership.writer
          else (without_reader out
              (previous_missing_reader_before_remove_threshold resource missing)).membership.reader)
      → Outcome done
  Outcome-by true suppressed enabled writers done e s f w r =
      served (ap is_empty r ∙ flip_not e) (λ name. ap (λ names. contains names name) r ∙ known name)
  Outcome-by false true enabled writers done e s f w r =
      nobody (unwanted (flip_not e)) (inl s) (r ∙ is_empty-eq _ (flip_not e))
  Outcome-by false false true true done e s f w r =
      fell_back (unwanted (flip_not e)) s f (flip_not w) r
  Outcome-by false false true false done e s f w r =
      nobody (unwanted (flip_not e)) (inr (inr (flip_not w))) (r ∙ without_kept (flip_not e))
  Outcome-by false false false writers done e s f w r =
      nobody (unwanted (flip_not e)) (inr (inl f)) (r ∙ without_kept (flip_not e))

  stabilize_reader_membership-Outcome : Outcome (stabilize_reader_membership resource out missing)
  unfolding stabilize_reader_membership
  stabilize_reader_membership-Outcome =
      Outcome-by _ _ _ _ (stabilize_reader_membership resource out missing) refl refl refl refl
        (ground arith)

ReaderOutcome-cong :
    (w w' : String → Bool) {s s' e : Bool} {W W' R : List String}
    → ((name : String) → w name ≡ w' name)
    → s ≡ s'
    → W ≡ W'
    → ReaderOutcome w s e W R
    → ReaderOutcome w' s' e W' R
ReaderOutcome-cong w w' {s = s} {s' = s'} {e = e} {W = W} {W' = W'} {R = R} hw hs hW o =
    subst (λ f. ReaderOutcome f s' e W' R) (fun_ext hw)
      (subst (λ b. ReaderOutcome w b e W' R) hs (subst (λ l. ReaderOutcome w s e l R) hW o))

-- The reader membership of a trusted plan, by cases. If it has members besides the fallback, they are
-- just the readers that serve and the missing readers that are kept. Else it is the writer membership
-- if the fallback is enabled and not suppressed and there is a writer, and empty if not.
pub plan-ReaderOutcome :
    (input : Input)
    → input.discovery_trusted ≡ true
    → ReaderOutcome
        (is_wanted_reader input)
        (plan input).reader_fallback_suppressed
        (reader_empty_fallback_enabled input.resource)
        (plan input).membership.writer
        (plan input).membership.reader
unfolding stabilized_plan
plan-ReaderOutcome input trusted =
    subst
      (λ out.
        ReaderOutcome
          (λ name.
            is_serving role_reader out.instances name
            || is_kept_reader input.resource input.missing_instances name)
          out.reader_fallback_suppressed (reader_empty_fallback_enabled input.resource)
          out.membership.writer out.membership.reader)
      (sym (plan_trusted input trusted))
      (ReaderOutcome-cong _ _
        (λ name.
          ap
            (λ plans.
              is_serving role_reader plans name
              || is_kept_reader input.resource input.missing_instances name)
            (sym (stabilized_plan-base input).0))
        (sym kept.1)
        (sym (
          stabilize_reader_membership-writer input.resource (kept_plan input)
            input.missing_instances))
        (stabilize_reader_membership-Outcome input.resource (kept_plan input)
          input.missing_instances (is_serving role_reader (observed_plan input).instances)
          (kept_plan-reader input)))
  where
    kept : SameBase input.resource (kept_plan input) (stabilized_plan input)
    kept =
        unfold stabilized_plan in
        stabilize_reader_membership-base input.resource (kept_plan input) input.missing_instances
