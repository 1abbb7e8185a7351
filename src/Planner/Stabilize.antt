-- ===== src/Planner/Stabilize.antt =====
-- internal/planner/planner.go: how the last applied membership stands in for missing members.
use pgbouncer_aurora_operato.Base.{
  ℕ, String, ◌^^◌, List, [], ◌∷◌, ◌++◌, Bool, not, ◌&&◌, ◌||◌, ◌==◌, length, is_empty, contains,
  int32_lt, sort_strings, ◌=?◌, if◌then◌else◌,
}
use pgbouncer_aurora_operato.Api.{PgBouncerAurora, MissingInstanceStatus}
use pgbouncer_aurora_operato.Planner.Select.{
  default_int32, enabled_default_true, instance_disabled, filter_enabled_instances,
  previous_missing_membership_before_remove_threshold, previous_current_membership,
}
use pgbouncer_aurora_operato.Planner.Io.{Output}

abbrev pub remove_threshold : PgBouncerAurora → ℕ
remove_threshold resource = default_int32 resource.spec.topology_policy.remove_after_missing_count 3

abbrev pub last_writer : PgBouncerAurora → List String
last_writer resource = resource.status.last_applied_membership.writer

abbrev pub last_reader : PgBouncerAurora → List String
last_reader resource = resource.status.last_applied_membership.reader

unfoldable pub previous_missing_writer_before_remove_threshold :
    PgBouncerAurora → List MissingInstanceStatus → List String
previous_missing_writer_before_remove_threshold resource missing_instances =
    filter_enabled_instances resource.spec.pgbouncer (
      previous_missing_membership_before_remove_threshold (last_writer resource) missing_instances
        (remove_threshold resource))

unfoldable pub previous_missing_reader_before_remove_threshold :
    PgBouncerAurora → List MissingInstanceStatus → List String
previous_missing_reader_before_remove_threshold resource missing_instances =
    filter_enabled_instances resource.spec.pgbouncer (
      previous_missing_membership_before_remove_threshold (last_reader resource) missing_instances
        (remove_threshold resource))

abbrev pub with_writer : Output → List String → String → Output
with_writer out writer reason = record out {
  membership = record (out.membership) { writer = writer };
  reasons = out.reasons ++ reason ∷ [];
}

abbrev pub with_reader : Output → List String → String → Output
with_reader out reader reason = record out {
  membership = record (out.membership) { reader = reader };
  reasons = out.reasons ++ reason ∷ [];
}

-- No healthy writer was discovered.
unfoldable pub without_writer : Output → List String → Output
without_writer out [] = out
without_writer out (name ∷ names) = with_writer out (name ∷ names) "writer membership preserved"

-- Several healthy writers were discovered: only the one that was applied before stays.
unfoldable pub ambiguous_writer : Output → List String → Output
ambiguous_writer out previous =
    if length previous =? 1
    then with_writer out previous "writer membership preserved"
    else with_writer out [] "writer membership ambiguous"

-- `stabilizeWriterMembership` by the number of writers in `out.Membership.Writer`.
unfoldable pub stabilize_writers :
    PgBouncerAurora → Output → List MissingInstanceStatus → List String → Output
stabilize_writers resource out missing_instances [] =
    without_writer out (previous_missing_writer_before_remove_threshold resource missing_instances)
stabilize_writers resource out missing_instances (name ∷ []) = out
stabilize_writers resource out missing_instances (name ∷ other ∷ names) =
    ambiguous_writer out (previous_current_membership (last_writer resource) (name ∷ other ∷ names))

unfoldable pub stabilize_writer_membership :
    PgBouncerAurora → Output → List MissingInstanceStatus → Output
stabilize_writer_membership resource out missing_instances =
    stabilize_writers resource out missing_instances out.membership.writer

-- The test under which the loop of `preserveMissingReaderMembership` skips an entry.
unfoldable pub skips_missing_reader : PgBouncerAurora → List String → MissingInstanceStatus → Bool
skips_missing_reader resource current_reader missing =
    missing.instance_name == ""
    || not (int32_lt missing.missing_count (remove_threshold resource))
    || not (contains (last_reader resource) missing.instance_name)
    || contains current_reader missing.instance_name
    || instance_disabled resource.spec.pgbouncer missing.instance_name

-- The loop: `current_reader` is the set that was taken before it.
unfoldable pub preserve_missing_readers :
    PgBouncerAurora → List String → Output → List MissingInstanceStatus → Output
preserve_missing_readers resource current_reader out [] = out
preserve_missing_readers resource current_reader out (missing ∷ rest) =
    preserve_missing_readers resource current_reader
      (if skips_missing_reader resource current_reader missing
        then out
        else with_reader out (out.membership.reader ++ missing.instance_name ∷ [])
            "missing reader membership preserved")
      rest

abbrev pub sort_reader : Output → Output
sort_reader out = record out {
  membership = record (out.membership) { reader = sort_strings out.membership.reader };
}

unfoldable pub preserve_missing_reader_membership :
    PgBouncerAurora → Output → List MissingInstanceStatus → Output
preserve_missing_reader_membership resource out missing_instances =
    if is_empty missing_instances || is_empty (last_reader resource)
    then out
    else sort_reader (preserve_missing_readers resource out.membership.reader out missing_instances)

abbrev pub reader_empty_fallback_enabled : PgBouncerAurora → Bool
reader_empty_fallback_enabled resource =
    enabled_default_true resource.spec.topology_policy.reader_empty_fallback.enabled

unfoldable pub without_reader : Output → List String → Output
without_reader out [] = out
without_reader out (name ∷ names) = with_reader out (name ∷ names) "reader membership preserved"

unfoldable pub stabilize_reader_membership :
    PgBouncerAurora → Output → List MissingInstanceStatus → Output
stabilize_reader_membership resource out missing_instances =
    if not (is_empty out.membership.reader)
    then out
    else if out.reader_fallback_suppressed
    then record out {
      reasons =
          out.reasons
          ++ ("reader fallback suppressed: " ^^ out.reader_fallback_suppressed_reason) ∷ [];
    }
    else if reader_empty_fallback_enabled resource && not (is_empty out.membership.writer)
    then with_reader out out.membership.writer "reader fallback to writer"
    else without_reader out
        (previous_missing_reader_before_remove_threshold resource missing_instances)
