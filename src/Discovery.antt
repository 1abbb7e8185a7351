-- ===== src/Discovery.antt =====
-- internal/discovery/aurora.go: from the rows of the database to a topology that is trusted or not.
mod Rows
pub mod Accepted
pub mod Metadata
mod Tests
unfoldable pub use Rows.*
use pgbouncer_aurora_operato.Base.{
  ◌=?◌, if◌then◌else◌, is_empty, sprint_int32, trim_space, sort_by, sort_strings, contains, lookup,
  Answer, ok, failed, ℕ, suc, String, ◌^^◌, true, false, not, ◌||◌, Option, none, some, List, [],
  ◌∷◌, ◌==◌,
}
use pgbouncer_aurora_operato.Api.{PgBouncerAurora, role_writer, InstanceTopologyStatus}
use pgbouncer_aurora_operato.Domain.{InstanceObservation, DiscoveryResult}

-- What the loop of `BuildResult` ends with: a reason for distrust, or the instances and how many of
-- them are writers.
pub data Built : Type 0 where
  rejected : String → Built
  built : List InstanceObservation → ℕ → Built

-- `%q`, as far as the text holds no character that Go escapes.
unfoldable pub quoted : String → String
quoted text = "\"" ^^ text ^^ "\""

abbrev pub add_instance : InstanceObservation → Built → Built
add_instance observation (rejected reason) = rejected reason
add_instance observation (built instances writer_count) =
    built (observation ∷ instances)
      (if observation.role == role_writer then suc writer_count else writer_count)

module _ (resource : PgBouncerAurora) (previous : List (String × InstanceTopologyStatus))
    (metadata : List (String × InstanceMetadata)) where
  abbrev pub observation_for : String → AuroraReplicaStatusRow → InstanceObservation
  observation_for name row = record {
    name = name;
    endpoint = endpoint_for_instance resource name previous;
    port = default_port (port_for_instance resource name previous);
    role = role_from_session_id row.session_id;
    availability_zone =
        availability_zone_for_instance name (metadata_of (lookup name metadata)) previous;
    dbi_resource_id =
        dbi_resource_id_for_instance name (metadata_of (lookup name metadata)) previous;
  }

  -- The loop over the rows; `seen` holds the names before.
  unfoldable pub build_rows : List String → List AuroraReplicaStatusRow → Built
  build_rows seen [] = built [] 0
  build_rows seen (row ∷ rows) =
      let name = trim_space row.server_id in
      let rest = build_rows (name ∷ seen) rows in
      if name == ""
      then rejected "aurora_replica_status row has empty server_id"
      else if contains seen name
      then rejected ("duplicate instanceName " ^^ quoted name)
      else if endpoint_for_instance resource name previous == ""
      then rejected ("endpoint missing for instance " ^^ quoted name)
      else add_instance (observation_for name row) rest

abbrev pub untrusted : String → DiscoveryResult
untrusted reason = record { trusted = false; instances = []; reason = reason }

-- The checks after the loop.
unfoldable pub finish : Built → DiscoveryResult
finish (rejected reason) = untrusted reason
finish (built instances writer_count) =
    if not (writer_count =? 1)
    then untrusted ("expected exactly one writer, got " ^^ sprint_int32 writer_count)
    else if is_empty instances
    then untrusted "no usable instances discovered"
    else record {
      trusted = true;
      instances = sort_by (λ observation. observation.name) instances;
      reason = "aurora discovery succeeded";
    }

unfoldable pub build_result :
    PgBouncerAurora
    → List AuroraReplicaStatusRow
    → List (String × InstanceMetadata)
    → DiscoveryResult
build_result resource rows metadata =
    if is_empty rows
    then untrusted "aurora_replica_status returned no rows"
    else finish (build_rows resource (previous_topology resource) metadata [] rows)

-- The database and the RDS API, which the provider calls. `none` is a source that is not configured.
pub record Provider : Type 0 where
  pub rows : Option (PgBouncerAurora → Answer (List AuroraReplicaStatusRow))
  pub metadata : Option (PgBouncerAurora → List String → Answer (List (String × InstanceMetadata)))

-- Names as they stand in the rows, without the empty ones.
abbrev pub server_ids : List AuroraReplicaStatusRow → List String
server_ids [] = []
server_ids (row ∷ rows) =
    let rest = server_ids rows in if row.server_id == "" then rest else row.server_id ∷ rest

-- The keys of the set, sorted.
unfoldable pub unique : List String → List String
unique [] = []
unique (value ∷ values) =
    let rest = unique values in if value == "" || contains values value then rest else value ∷ rest

unfoldable pub unique_sorted : List String → List String
unique_sorted values = sort_strings (unique values)

-- The topology, with a note of it if the metadata could not be had.
unfoldable pub with_metadata :
    PgBouncerAurora
    → List AuroraReplicaStatusRow
    → Answer (List (String × InstanceMetadata))
    → DiscoveryResult
with_metadata resource rows (ok metadata) = build_result resource rows metadata
with_metadata resource rows (failed error) =
    let result = build_result resource rows [] in
    if error == ""
    then result
    else record result { reason = result.reason ^^ "; rds metadata refresh failed; using fallback" }

abbrev pub resolve_metadata :
    Option (PgBouncerAurora → List String → Answer (List (String × InstanceMetadata)))
    → PgBouncerAurora
    → List String
    → Answer (List (String × InstanceMetadata))
resolve_metadata none resource names = ok []
resolve_metadata (some resolve) resource names =
    if is_empty names then ok [] else resolve resource (unique_sorted names)

abbrev pub discover_rows :
    Provider → PgBouncerAurora → Answer (List AuroraReplicaStatusRow) → DiscoveryResult
discover_rows provider resource (failed error) =
    untrusted ("aurora replica status query failed: " ^^ error)
discover_rows provider resource (ok rows) =
    with_metadata resource rows (resolve_metadata provider.metadata resource (server_ids rows))

abbrev pub discover_from :
    Provider
    → PgBouncerAurora
    → Option (PgBouncerAurora → Answer (List AuroraReplicaStatusRow))
    → DiscoveryResult
discover_from provider resource none = untrusted "aurora row source is not configured"
discover_from provider resource (some rows) = discover_rows provider resource (rows resource)

unfoldable pub discover : Provider → PgBouncerAurora → DiscoveryResult
discover provider resource = discover_from provider resource provider.rows
