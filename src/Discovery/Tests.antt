-- ===== src/Discovery/Tests.antt =====
-- Two rows of the database, and each theorem about discovery on them.
use pgbouncer_aurora_operato.Base.{
  trim_space, equal_fold, replace_all, sort_by, ok, failed, ◌≡◌, refl, true, none, some, List, [],
  ◌∷◌,
}
use pgbouncer_aurora_operato.Api.{role_writer, role_reader}
use pgbouncer_aurora_operato.Discovery.{
  build_rows, finish, build_result, Provider, discover, AuroraReplicaStatusRow,
  role_from_session_id, render_aurora_endpoint, aurora_instance_endpoint, previous_topology_from,
  previous_topology, endpoint_for_instance, availability_zone_for_instance,
  dbi_resource_id_for_instance, port_for_instance,
}
use pgbouncer_aurora_operato.Samples.{sample_resource, sample_observation}
use pgbouncer_aurora_operato.Discovery.Accepted.{
  IsSound, build_result-IsSound, build_result_accepts,
}
use pgbouncer_aurora_operato.Discovery.Metadata.{SameTopology, discover_without_metadata}

abbrev sample_rows : List AuroraReplicaStatusRow
sample_rows =
    record { server_id = "db-2"; session_id = "session" }
    ∷ record { server_id = " db-1 "; session_id = "MASTER_SESSION_ID" }
    ∷ []

sample_trusted :
    (build_result sample_resource sample_rows []).instances
    ≡ record (sample_observation "db-1" role_writer) { endpoint = "db-1.abc.rds.amazonaws.com" }
      ∷ record (sample_observation "db-2" role_reader) { endpoint = "db-2.abc.rds.amazonaws.com" }
      ∷ []
unfolding build_result finish build_rows sort_by trim_space endpoint_for_instance
    aurora_instance_endpoint render_aurora_endpoint replace_all role_from_session_id equal_fold
    port_for_instance availability_zone_for_instance dbi_resource_id_for_instance previous_topology
    previous_topology_from
sample_trusted = refl

build_result_accepts_example : (build_result sample_resource sample_rows []).trusted ≡ true
unfolding build_result finish build_rows trim_space endpoint_for_instance aurora_instance_endpoint
    render_aurora_endpoint replace_all role_from_session_id equal_fold
build_result_accepts_example =
    build_result_accepts sample_resource sample_rows [] (refl, refl, refl, (refl, refl, refl, tt))
      refl

build_result-IsSound_example : IsSound sample_rows (build_result sample_resource sample_rows [])
unfolding build_result finish build_rows trim_space endpoint_for_instance aurora_instance_endpoint
    render_aurora_endpoint replace_all role_from_session_id equal_fold
build_result-IsSound_example = build_result-IsSound sample_resource sample_rows [] refl

-- The API fails.
abbrev sample_provider : Provider
sample_provider = record {
  rows = some (λ resource. ok sample_rows);
  metadata = some (λ resource names. failed "throttled");
}

discover_without_metadata_example :
    SameTopology
      (discover sample_provider sample_resource)
      (discover (record sample_provider { metadata = none }) sample_resource)
discover_without_metadata_example = discover_without_metadata sample_provider sample_resource
