-- ===== src/Controller/Tests/Topology.antt =====
-- Where a topology comes from, and which instances are missing, at concrete inputs.
use pgbouncer_aurora_operato.Base.{
  if◌then◌else◌, any, All, sort_by, Answer, ok, failed, map_answer, String, ◌≡◌, refl, true, false,
  ◌||◌, none, some, List, [], ◌∷◌, ◌++◌, map, Perm, ◌==◌,
}
use pgbouncer_aurora_operato.Api.{MissingInstanceStatus}
use pgbouncer_aurora_operato.Domain.{DiscoveryResult}
use pgbouncer_aurora_operato.Samples.{sample_status, sample_resource, sample_discovered}
use pgbouncer_aurora_operato.Controller.Due.{
  remove_after_missing_count, removed_instance_retention, removed_instance_ready_for_delete,
}
use pgbouncer_aurora_operato.Controller.Cache.{discovery_for}
use pgbouncer_aurora_operato.Controller.Cache.Source.{IsSourced, discovery_for-IsSourced}
use pgbouncer_aurora_operato.Controller.Missing.{
  discovered_instance_set, existing_missing, known_missing, missed_once_more, missing_instances_for,
}
use pgbouncer_aurora_operato.Controller.Missing.Candidates.{stored_missing, is_known, is_some}
use pgbouncer_aurora_operato.Controller.Missing.Counts.{
  first_missed, times_missed, stored_missing-missing_instances_for,
}
use pgbouncer_aurora_operato.Controller.Removal.{
  remove_missing, cleanup_removed_instance_resources, delete_each, IsRemovable, cleanup-IsRemovable,
}

abbrev refused_discovery : DiscoveryResult
refused_discovery = record {
  trusted = false;
  instances = [];
  reason = "expected exactly one writer, got 2";
}

abbrev trusted_discovery : DiscoveryResult
trusted_discovery = record { trusted = true; instances = sample_discovered; reason = "" }

-- The provider is due and fails; the stored topology stands in.
discovery_for-IsSourced_example :
    IsSourced
      (λ resource. ok refused_discovery)
      sample_resource
      5000000000
      (discovery_for (λ resource. ok refused_discovery) sample_resource 5000000000)
discovery_for-IsSourced_example =
    discovery_for-IsSourced (λ resource. ok refused_discovery) sample_resource 5000000000

-- `db-4` has been missing once, and is again.
stored_missing-missing_instances_for_example :
    let old = stored_missing "db-4" sample_status.missing_instances in
    stored_missing "db-4" (missing_instances_for sample_resource trusted_discovery true 950000000)
    ≡ (if "db-4" == "" || any (λ o. o.name == "db-4") sample_discovered
        then none
        else if is_some old || is_known "db-4" sample_status.last_known_topology
        then some (record {
          instance_name = "db-4";
          missing_count = times_missed old;
          first_missing_time = some (first_missed old 950000000);
          last_missing_time = some 950000000;
        })
        else none)
stored_missing-missing_instances_for_example =
    stored_missing-missing_instances_for sample_resource trusted_discovery 950000000 "db-4" refl

db_4_missed_twice :
    missing_instances_for sample_resource trusted_discovery true 950000000
    ≡ record {
      instance_name = "db-4";
      missing_count = 2;
      first_missing_time = some 900000000;
      last_missing_time = some 950000000;
    }
      ∷ []
unfolding missing_instances_for sort_by known_missing discovered_instance_set existing_missing
    missed_once_more
db_4_missed_twice = refl

abbrev long_missing : MissingInstanceStatus
long_missing = record {
  instance_name = "db-9";
  missing_count = 3;
  first_missing_time = some 0;
  last_missing_time = some 0;
}

-- The deletions are noted in a list, and one of them fails.
abbrev noting : List String → String → Answer (List String)
noting names name = if name == "db-8" then failed "forbidden" else ok (names ++ name ∷ [])

cleanup-IsRemovable_example :
    (kept gone : List MissingInstanceStatus) × All
      (IsRemovable sample_resource trusted_discovery 4000000000000)
      gone
    × Perm (long_missing ∷ sample_status.missing_instances) (kept ++ gone)
    × (cleanup_removed_instance_resources noting sample_resource trusted_discovery []
          (long_missing ∷ sample_status.missing_instances)
          4000000000000
        ≡ map_answer (λ s. (s, kept)) (delete_each noting [] (map (λ m. m.instance_name) gone)))
cleanup-IsRemovable_example =
    cleanup-IsRemovable noting sample_resource trusted_discovery []
      (long_missing ∷ sample_status.missing_instances) 4000000000000 refl

db_9_removed :
    cleanup_removed_instance_resources noting sample_resource trusted_discovery []
      (long_missing ∷ sample_status.missing_instances)
      4000000000000
    ≡ ok ("db-9" ∷ [], sample_status.missing_instances)
unfolding cleanup_removed_instance_resources remove_missing discovered_instance_set
    removed_instance_ready_for_delete remove_after_missing_count removed_instance_retention
db_9_removed = refl
