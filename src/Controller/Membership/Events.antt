-- ===== src/Controller/Membership/Events.antt =====
-- internal/controller/reconciler.go (`topologyEventReport`): when no event is reported.
use pgbouncer_aurora_operato.Base.{
  if◌then◌else◌, is_empty, filter, contains, contains-filter, contains-sort_strings, String, ◌≡◌,
  refl, sym, ap, ◌∙◌, Bool, true, false, not, ◌&&◌, ◌||◌, List, [], ◌∷◌, arith, ◌==◌,
}
use pgbouncer_aurora_operato.Api.{PgBouncerAurora}
use pgbouncer_aurora_operato.Planner.{plan, Output, last_writer, last_reader}
use pgbouncer_aurora_operato.Controller.Membership.{
  string_set_diff, single_string, event_of, topology_event_report,
}

contains-string_set_diff :
    (left right : List String) (name : String)
    → contains (string_set_diff left right) name
      ≡ (if contains left name then not (contains right name) else false)
unfolding string_set_diff
contains-string_set_diff left right name =
    contains-sort_strings (filter (λ value. not (contains right value)) left) name
    ∙ contains-filter (λ value. not (contains right value)) left name

nothing_contained :
    (names : List String) (name : String) → is_empty names ≡ true → contains names name ≡ false
nothing_contained [] name h = refl
nothing_contained (n ∷ names) name h = cc

differs_from_empty : {event : String} → event ≡ "" → (event == "") ≡ false → ⊥
differs_from_empty h e = cc (sym e ∙ ap (λ text. text == "") h)

silent_branches :
    (changed adds removes : Bool)
    → (let event : String =
          if changed
          then "failover"
          else if adds && removes
          then "reader_membership_changed"
          else if adds
          then "reader_added"
          else if removes
          then "reader_removed"
          else "" in
        event ≡ "")
    → (changed ≡ false) × (adds ≡ false) × (removes ≡ false)
silent_branches true adds removes h = absurd (differs_from_empty h refl)
silent_branches false true true h = absurd (differs_from_empty h refl)
silent_branches false true false h = absurd (differs_from_empty h refl)
silent_branches false false true h = absurd (differs_from_empty h refl)
silent_branches false false false h = (refl, refl, refl)

no_event :
    (old_writer new_writer : String) (added removed : List String)
    → event_of old_writer new_writer added removed ≡ ""
    → (is_empty added ≡ true)
      × (is_empty removed ≡ true)
      × ((old_writer == "" || new_writer == "" || old_writer == new_writer) ≡ true)
no_event old_writer new_writer added removed h =
    let silent =
      silent_branches
        (not (old_writer == "") && not (new_writer == "") && not (old_writer == new_writer))
        (not (is_empty added)) (not (is_empty removed)) h in
    (
      ground (arith, silent.1),
      ground (arith, silent.2),
      same_unless (old_writer == "") (new_writer == "") (old_writer == new_writer) silent.0,
    )
  where
    same_unless : (a b c : Bool) → (not a && not b && not c) ≡ false → (a || b || c) ≡ true
    same_unless true b c h = refl
    same_unless false true c h = refl
    same_unless false false true h = refl
    same_unless false false false h = cc

-- If no event is reported, the reader membership stays the same set, and the writer membership reads the
-- same as before unless there was none before or is none now.
topology_event_report-silent :
    (resource : PgBouncerAurora) (plan : Output)
    → (topology_event_report resource plan).event ≡ ""
    → ((name : String)
        → contains plan.membership.reader name ≡ contains (last_reader resource) name)
      × (let old_writer = single_string (last_writer resource) in
          let new_writer = single_string plan.membership.writer in
          (old_writer == "" || new_writer == "" || old_writer == new_writer) ≡ true)
unfolding topology_event_report
topology_event_report-silent resource plan h =
    let added = string_set_diff plan.membership.reader (last_reader resource) in
    let removed = string_set_diff (last_reader resource) plan.membership.reader in
    let silent =
      no_event (single_string (last_writer resource)) (single_string plan.membership.writer) added
        removed h in
    (
      λ name. ground (
        arith,
        contains-string_set_diff plan.membership.reader (last_reader resource) name,
        contains-string_set_diff (last_reader resource) plan.membership.reader name,
        nothing_contained added name silent.0,
        nothing_contained removed name silent.1,
      ),
      silent.2,
    )
