-- ===== src/Controller/Missing/Counts.antt =====
-- internal/controller/reconciler.go: how one round of discovery changes what is known of a name.
use pgbouncer_aurora_operato.Base.{
  if◌then◌else◌, Bool-cases, if_true, if_false, any, int32_add, sort_strings, contains,
  contains-sort_strings, lookup, ℕ, String, ◌≡◌, refl, sym, ap, ◌∙◌, inl, inr, Bool, true, false,
  not, ◌||◌, Option, none, some, List, [], ◌∷◌, map, arith, ◌==◌, eq_iff,
}
use pgbouncer_aurora_operato.Api.{PgBouncerAurora, MissingInstanceStatus}
use pgbouncer_aurora_operato.Domain.{InstanceObservation, DiscoveryResult}
use pgbouncer_aurora_operato.Controller.Missing.{
  discovered_instance_set, skips_name, existing_missing, known_missing, time_or, missed_once_more,
  missing_instances_for,
}
use pgbouncer_aurora_operato.Controller.Missing.Candidates.{
  newer, stored_missing, is_known, is_some, contains-known_missing, contains-existing_missing,
  lookup-existing_missing, skipped-known_missing, skipped-existing_missing,
}

newer_entries :
    (c b : Bool) (x y : MissingInstanceStatus)
    → (b ≡ true → y ≡ x)
    → newer (if c then some x else none) (if b then some y else none)
      ≡ (if (if b then true else c) then some x else none)
newer_entries true true x y e = refl
newer_entries true false x y e = refl
newer_entries false true x y e = ap some (e refl)
newer_entries false false x y e = refl

stored_missing-map :
    (entry : String → MissingInstanceStatus)
    → ((name : String) → (entry name).instance_name ≡ name)
    → (k : String) (names : List String)
    → stored_missing k (map entry names) ≡ (if contains names k then some (entry k) else none)
stored_missing-map entry named k [] = refl
stored_missing-map entry named k (name ∷ names) =
    ap (λ o. newer o (if (entry name).instance_name == k then some (entry name) else none))
      (stored_missing-map entry named k names)
    ∙ ap
        (λ n.
          newer (if contains names k then some (entry k) else none)
            (if n == k then some (entry name) else none))
        (named name)
    ∙ newer_entries (contains names k) (name == k) (entry k) (entry name)
        (λ same. ap entry ((eq_iff name k).0 same))

missed_once_more-name :
    (now : ℕ) (name : String) (found : Option MissingInstanceStatus)
    → (missed_once_more now name found).instance_name ≡ name
unfolding missed_once_more
missed_once_more-name now name found = refl

newer-none : (o : Option MissingInstanceStatus) → newer o none ≡ o
newer-none none = refl
newer-none (some m) = refl

not_judged : (trusted : Bool) → trusted ≡ true → (not trusted || not true) ≡ false
not_judged true h = refl
not_judged false h = cc

-- What a round of discovery makes of what was stored for a name, `known` if it stands in the stored
-- topology.
abbrev missed_round :
    ℕ → String → Option MissingInstanceStatus → Bool → Option MissingInstanceStatus
missed_round now name stored known =
    if is_some stored || known then some (missed_once_more now name stored) else none

stored_missing-round :
    (resource : PgBouncerAurora) (discovery : DiscoveryResult) (now : ℕ) (name : String)
    → discovery.trusted ≡ true
    → stored_missing name (missing_instances_for resource discovery true now) ≡ (
        if skips_name (discovered_instance_set discovery.instances) name
        then none
        else missed_round now name
            (stored_missing name resource.status.missing_instances)
            (is_known name resource.status.last_known_topology))
unfolding missing_instances_for
stored_missing-round resource discovery now name trusted =
    let current = discovered_instance_set discovery.instances in
    let first = existing_missing current [] [] resource.status.missing_instances in
    let names = known_missing current first.1 resource.status.last_known_topology in
    ap (stored_missing name) (if_false _ _ (not_judged discovery.trusted trusted))
    ∙ stored_missing-map (λ n. missed_once_more now n (lookup n first.0))
        (λ n. missed_once_more-name now n (lookup n first.0)) name (sort_strings names)
    ∙ ap (λ b. if b then some (missed_once_more now name (lookup name first.0)) else none)
        (contains-sort_strings names name)
    ∙ elim (Bool-cases (skips_name current name)) [
      | inl e ↦
          ap (λ b. if b then some (missed_once_more now name (lookup name first.0)) else none)
            (skipped-known_missing current first.1 resource.status.last_known_topology name e (
              skipped-existing_missing current [] [] resource.status.missing_instances name e refl))
          ∙ sym (
              if_true none
                (missed_round now name (stored_missing name resource.status.missing_instances)
                  (is_known name resource.status.last_known_topology))
                e)
      | inr e ↦
          ap (λ b. if b then some (missed_once_more now name (lookup name first.0)) else none)
            (contains-known_missing current first.1 resource.status.last_known_topology name e
              ∙ ap (λ b. b || is_known name resource.status.last_known_topology)
                  (contains-existing_missing current [] [] resource.status.missing_instances name
                    e))
          ∙ ap
              (λ found.
                if is_some (stored_missing name resource.status.missing_instances)
                  || is_known name resource.status.last_known_topology
                then some (missed_once_more now name found)
                else none)
              (lookup-existing_missing current [] [] resource.status.missing_instances name e
                ∙ newer-none (stored_missing name resource.status.missing_instances))
          ∙ sym (
              if_false none
                (missed_round now name (stored_missing name resource.status.missing_instances)
                  (is_known name resource.status.last_known_topology))
                e)
    ]

-- The first time at which a name was missed, `now` if none is known.
abbrev pub first_missed : Option MissingInstanceStatus → ℕ → ℕ
first_missed none now = now
first_missed (some missing) now = elim missing.first_missing_time [ none ↦ now | some time ↦ time ]

abbrev pub times_missed : Option MissingInstanceStatus → ℕ
times_missed none = 1
times_missed (some missing) = int32_add missing.missing_count 1

missed_once_more-again :
    (now : ℕ) (name : String) (stored : Option MissingInstanceStatus)
    → missed_once_more now name stored ≡ record {
      instance_name = name;
      missing_count = times_missed stored;
      first_missing_time = some (first_missed stored now);
      last_missing_time = some now;
    }
unfolding missed_once_more
missed_once_more-again now name none = refl
missed_once_more-again now name (some missing) =
    ap
      (λ time. record {
        instance_name = name;
        missing_count = times_missed (some missing);
        first_missing_time = some time;
        last_missing_time = some now;
      })
      (first_time missing.first_missing_time)
  where
    first_time :
        (time : Option ℕ) → time_or time now ≡ elim time [ none ↦ now | some first ↦ first ]
    first_time none = refl
    first_time (some first) = refl

contains-discovered_instance_set :
    (instances : List InstanceObservation) (name : String)
    → (name == "") ≡ false
    → contains (discovered_instance_set instances) name ≡ any (λ o. o.name == name) instances
unfolding discovered_instance_set
contains-discovered_instance_set [] name h = refl
contains-discovered_instance_set (o ∷ rest) name h = ground (
  arith,
  h,
  eq_iff o.name "",
  eq_iff o.name name,
  eq_iff name "",
  contains-discovered_instance_set rest name h,
)

skips_name-discovered :
    (instances : List InstanceObservation) (name : String)
    → skips_name (discovered_instance_set instances) name
      ≡ (name == "" || any (λ o. o.name == name) instances)
skips_name-discovered instances name = elim (Bool-cases (name == "")) [
  | inl e ↦ ground (arith, e)
  | inr e ↦ ground (arith, e, contains-discovered_instance_set instances name e)
]

-- After a trusted discovery, a name that it found, and the empty name, is not missing; a name that it did
-- not find is missing if it was missing or stands in the stored topology: one time more than before, since the
-- time at which it was first missed, and now for the last time; no other name is missing.
pub stored_missing-missing_instances_for :
    (resource : PgBouncerAurora) (discovery : DiscoveryResult) (now : ℕ) (name : String)
    → discovery.trusted ≡ true
    → (let stored = stored_missing name resource.status.missing_instances in
        stored_missing name (missing_instances_for resource discovery true now) ≡ (
          if name == "" || any (λ o. o.name == name) discovery.instances
          then none
          else if is_some stored || is_known name resource.status.last_known_topology
          then some (record {
            instance_name = name;
            missing_count = times_missed stored;
            first_missing_time = some (first_missed stored now);
            last_missing_time = some now;
          })
          else none))
stored_missing-missing_instances_for resource discovery now name trusted =
    let stored = stored_missing name resource.status.missing_instances in
    let known = is_known name resource.status.last_known_topology in
    stored_missing-round resource discovery now name trusted
    ∙ ap (λ b. if b then none else missed_round now name stored known)
        (skips_name-discovered discovery.instances name)
    ∙ ap
        (λ missed.
          if name == "" || any (λ o. o.name == name) discovery.instances
          then none
          else if is_some stored || known
          then some missed
          else none)
        (missed_once_more-again now name stored)
