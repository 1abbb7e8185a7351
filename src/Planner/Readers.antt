-- ===== src/Planner/Readers.antt =====
-- internal/planner/planner.go: the reader membership that a plan ends with.
use pgbouncer_aurora_operato.Base.{
  if◌then◌else◌, Bool-cases, is_empty, any, int32_lt, contains, contains-snoc,
  contains-sort_strings, ℕ, String, ◌≡◌, refl, ap, ◌∙◌, inl, inr, Bool, true, false, not, ◌&&◌,
  ◌||◌, List, [], ◌∷◌, arith, ◌==◌, eq_iff,
}
use pgbouncer_aurora_operato.Api.{PgBouncerAurora, role_reader, MissingInstanceStatus}
use pgbouncer_aurora_operato.Planner.{
  observed_plan, kept_plan, plan, instance_disabled, active_missing, Input, Output,
  remove_threshold, last_reader, stabilize_writer_membership, skips_missing_reader,
  preserve_missing_readers, preserve_missing_reader_membership,
}
use pgbouncer_aurora_operato.Planner.Serving.{is_serving, observed_plan-reader}
use pgbouncer_aurora_operato.Planner.Frame.{stabilize_writers-base}

-- A reader that was applied last, is missing for fewer rounds than the threshold, and is not
-- switched off.
abbrev pub is_kept_reader : PgBouncerAurora → List MissingInstanceStatus → String → Bool
is_kept_reader resource missing name =
    active_missing missing (remove_threshold resource) name
    && contains (last_reader resource) name
    && not (instance_disabled resource.spec.pgbouncer name)

-- The entry test of `active_missing`.
abbrev entry_active : ℕ → String → MissingInstanceStatus → Bool
entry_active threshold name missing =
    not (missing.instance_name == "")
    && int32_lt missing.missing_count threshold
    && missing.instance_name == name

-- The test of the loop at one entry, as a test of the name that is asked for.
entry_lasts :
    (last current disabled : String → Bool) (below : Bool) (entry name : String)
    → (not (entry == "" || not below || not (last entry) || current entry || disabled entry)
        && entry == name)
      ≡ ((not (entry == "") && below && entry == name)
          && (last name && not (disabled name) && not (current name)))
entry_lasts last current disabled below entry name = ground (arith, eq_iff entry name)

any-and {ℓ} :
    {A : Type ℓ} (f : A → Bool) (b : Bool) (xs : List A) → any (λ x. f x && b) xs ≡ (any f xs && b)
any-and f b [] = refl
any-and f b (x ∷ xs) = ground (arith, any-and f b xs)

or_regroup : (a b c : Bool) → ((a || b) || c) ≡ (a || (if b then true else c))
or_regroup true b c = refl
or_regroup false true c = refl
or_regroup false false c = refl

any-cong {ℓ} :
    {A : Type ℓ} {f g : A → Bool} → ((x : A) → f x ≡ g x) → (xs : List A) → any f xs ≡ any g xs
any-cong h [] = refl
any-cong h (x ∷ xs) = ground (arith, h x, any-cong h xs)

module _ (resource : PgBouncerAurora) (current : List String) (name : String) where
  abbrev lasting : Bool
  lasting =
      contains (last_reader resource) name
      && not (instance_disabled resource.spec.pgbouncer name)
      && not (contains current name)

  entry_kept :
      (m : MissingInstanceStatus)
      → (not (skips_missing_reader resource current m) && m.instance_name == name)
        ≡ (entry_active (remove_threshold resource) name m && lasting)
  unfolding skips_missing_reader
  entry_kept m =
      entry_lasts (contains (last_reader resource)) (contains current)
        (instance_disabled resource.spec.pgbouncer)
        (int32_lt m.missing_count (remove_threshold resource)) m.instance_name name

  -- The entries of one name that the loop does not skip.
  any-kept :
      (missing : List MissingInstanceStatus)
      → any (λ m. not (skips_missing_reader resource current m) && m.instance_name == name) missing
        ≡ (active_missing missing (remove_threshold resource) name && lasting)
  unfolding active_missing
  any-kept missing =
      any-cong entry_kept missing
      ∙ any-and (entry_active (remove_threshold resource) name) lasting missing

  -- What the loop appends.
  preserve_missing_readers-reader :
      (out : Output) (missing : List MissingInstanceStatus)
      → contains (preserve_missing_readers resource current out missing).membership.reader name ≡ (
          contains out.membership.reader name
          || any
              (λ m. not (skips_missing_reader resource current m) && m.instance_name == name)
              missing)
  unfolding preserve_missing_readers
  preserve_missing_readers-reader out [] = ground arith
  preserve_missing_readers-reader out (m ∷ missing) =
      elim (Bool-cases (skips_missing_reader resource current m)) [
        | inl e ↦ rw (e, preserve_missing_readers) (preserve_missing_readers-reader out missing)
        | inr e ↦
            rw (e, preserve_missing_readers)
              (preserve_missing_readers-reader _ missing
                ∙ ap
                    (λ b.
                      b
                      || any
                          (λ m'.
                            not (skips_missing_reader resource current m')
                            && m'.instance_name == name)
                          missing)
                    (contains-snoc out.membership.reader m.instance_name name)
                ∙ or_regroup (contains out.membership.reader name) (m.instance_name == name) _)
      ]

kept_nothing :
    (missing : List MissingInstanceStatus) (last : List String) (threshold : ℕ) (name : String)
    (enabled : Bool)
    → (is_empty missing || is_empty last) ≡ true
    → (active_missing missing threshold name && contains last name && enabled) ≡ false
unfolding active_missing
kept_nothing [] last threshold name enabled h = refl
kept_nothing (m ∷ missing) [] threshold name enabled h = ground arith
kept_nothing (m ∷ missing) (l ∷ last) threshold name enabled h = cc

-- What the step adds to the readers.
preserve_missing_reader_membership-reader :
    (resource : PgBouncerAurora) (out : Output) (missing : List MissingInstanceStatus)
    (name : String)
    → contains (preserve_missing_reader_membership resource out missing).membership.reader name
      ≡ (contains out.membership.reader name || is_kept_reader resource missing name)
unfolding preserve_missing_reader_membership
preserve_missing_reader_membership-reader resource out missing name =
    elim (Bool-cases (is_empty missing || is_empty (last_reader resource))) [
      | inl e ↦
          rw (e, preserve_missing_reader_membership)
            (ground (
              arith,
              kept_nothing missing (last_reader resource) (remove_threshold resource) name
                  (not (instance_disabled resource.spec.pgbouncer name)) e,
            ))
      | inr e ↦
          rw (e, preserve_missing_reader_membership)
            (contains-sort_strings _ name
              ∙ preserve_missing_readers-reader resource out.membership.reader name out missing
              ∙ ground (arith, any-kept resource out.membership.reader name missing))
    ]

-- A reader that serves or is kept.
abbrev pub is_wanted_reader : Input → String → Bool
is_wanted_reader input name =
    is_serving role_reader (plan input).instances name
    || is_kept_reader input.resource input.missing_instances name

pub kept_plan-reader :
    (input : Input) (name : String)
    → contains (kept_plan input).membership.reader name ≡ (
        is_serving role_reader (observed_plan input).instances name
        || is_kept_reader input.resource input.missing_instances name)
unfolding kept_plan stabilize_writer_membership
kept_plan-reader input name =
    preserve_missing_reader_membership-reader input.resource _ input.missing_instances name
    ∙ ap
        (λ names. contains names name || is_kept_reader input.resource input.missing_instances name)
        (stabilize_writers-base input.resource (observed_plan input) input.missing_instances _).1
    ∙ ap (λ b. b || is_kept_reader input.resource input.missing_instances name)
        (observed_plan-reader input name)
