-- ===== src/Controller/Missing.antt =====
-- internal/controller/reconciler.go: the instances that discovery no longer finds, how often they have
-- been missed, and the removal of their resources.
pub mod Candidates
pub mod Counts
use pgbouncer_aurora_operato.Base.{
  if◌then◌else◌, int32_add, sort_strings, contains, lookup, insert, ℕ, String, Bool, not, ◌||◌,
  Option, none, some, List, [], ◌∷◌, map, ◌==◌,
}
use pgbouncer_aurora_operato.Api.{PgBouncerAurora, InstanceTopologyStatus, MissingInstanceStatus}
use pgbouncer_aurora_operato.Domain.{InstanceObservation, DiscoveryResult}

-- The names in the set `discoveredInstanceSet`.
unfoldable pub discovered_instance_set : List InstanceObservation → List String
discovered_instance_set [] = []
discovered_instance_set (instance_observation ∷ rest) =
    let later = discovered_instance_set rest in
    if instance_observation.name == "" then later else instance_observation.name ∷ later

-- The test under which both loops of `missingInstancesFor` skip a name.
abbrev pub skips_name : List String → String → Bool
skips_name current name = name == "" || contains current name

abbrev pub add_candidate : String → List String → List String
add_candidate name names = if contains names name then names else name ∷ names

-- The first loop: the map `existing` and the keys of the set `candidates`.
unfoldable pub existing_missing :
    List String
    → List (String × MissingInstanceStatus)
    → List String
    → List MissingInstanceStatus
    → List (String × MissingInstanceStatus) × List String
existing_missing current existing candidates [] = (existing, candidates)
existing_missing current existing candidates (missing ∷ rest) =
    let skip = skips_name current missing.instance_name in
    existing_missing current
      (if skip then existing else insert missing.instance_name missing existing)
      (if skip then candidates else add_candidate missing.instance_name candidates) rest

-- The second loop.
unfoldable pub known_missing : List String → List String → List InstanceTopologyStatus → List String
known_missing current candidates [] = candidates
known_missing current candidates (previous ∷ rest) =
    known_missing current
      (if skips_name current previous.instance_name
        then candidates
        else add_candidate previous.instance_name candidates)
      rest

-- `existing[name]`, the zero value for a name that is new.
abbrev pub existing_or_new : Option MissingInstanceStatus → MissingInstanceStatus
existing_or_new none = record {
  instance_name = "";
  missing_count = 0;
  first_missing_time = none;
  last_missing_time = none;
}
existing_or_new (some item) = item

abbrev pub time_or : Option ℕ → ℕ → ℕ
time_or none now = now
time_or (some time) now = time

-- The body of the third loop.
unfoldable pub missed_once_more : ℕ → String → Option MissingInstanceStatus → MissingInstanceStatus
missed_once_more now name found = record {
  instance_name = name;
  missing_count = int32_add (existing_or_new found).missing_count 1;
  first_missing_time = some (time_or (existing_or_new found).first_missing_time now);
  last_missing_time = some now;
}

unfoldable pub missing_instances_for :
    PgBouncerAurora → DiscoveryResult → Bool → ℕ → List MissingInstanceStatus
missing_instances_for resource discovery discovery_ran now =
    let current = discovered_instance_set discovery.instances in
    let first = existing_missing current [] [] resource.status.missing_instances in
    if not discovery.trusted || not discovery_ran
    then resource.status.missing_instances
    else map (λ name. missed_once_more now name (lookup name first.0))
        (sort_strings (known_missing current first.1 resource.status.last_known_topology))
