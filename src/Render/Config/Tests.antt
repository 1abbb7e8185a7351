-- ===== src/Render/Config/Tests.antt =====
-- The section `[pgbouncer]`, at a concrete input.
use pgbouncer_aurora_operato.Base.{
  if◌then◌else◌, sprint_int32, trim_space, join, insert_sorted, sort_by, lookup, ℕ, String, ◌≡◌,
  refl, Option, none, some, [], ◌∷◌, ◌==◌,
}
use pgbouncer_aurora_operato.Api.{PgBouncerAuroraSpec, role_writer}
use pgbouncer_aurora_operato.Samples.{empty_config, sample_spec, sample_observation}
use pgbouncer_aurora_operato.Render.Merge.{merge_map, merge_overrides, merged_config}
use pgbouncer_aurora_operato.Render.Config.{
  listen_port, auth_file_path_from_config, pgbouncer_config, sorted_keys, database_port,
  database_line, write_databases_section, write_key_value_section, write_named_key_value_section,
  pgbouncer_ini,
}
use pgbouncer_aurora_operato.Render.Config.Section.{lookup-pgbouncer_config}

-- A parser that reads one number.
abbrev sample_atoi : String → Option ℕ
sample_atoi value = if value == "7000" then some 7000 else none

abbrev configured_spec : PgBouncerAuroraSpec
configured_spec = record sample_spec {
  pgbouncer = record (sample_spec.pgbouncer) {
    config = record empty_config {
      pgbouncer = ("pool_mode", "session") ∷ ("listen_port", " 7000") ∷ ("auth_file", "/x") ∷ [];
    };
    instance_overrides =
        record {
          name = "db-2";
          enabled = none;
          replicas = 0;
          config = record empty_config { pgbouncer = ("pool_mode", "transaction") ∷ [] };
        }
        ∷ [];
  };
}

lookup-pgbouncer_config_example :
    lookup "pool_mode" (pgbouncer_config sample_atoi configured_spec "db-2") ≡ some "transaction"
lookup-pgbouncer_config_example =
    lookup-pgbouncer_config sample_atoi configured_spec "db-2" "pool_mode"

listens : listen_port sample_atoi configured_spec ≡ 7000
unfolding listen_port merged_config merge_overrides trim_space
listens = refl

rendered :
    pgbouncer_ini sample_atoi (λ s. s) (λ s. s) sample_spec (sample_observation "db-1" role_writer)
    ≡ "[databases]\n* = host= port=5432\n\n[pgbouncer]\nauth_file = /etc/pgbouncer/userlist.txt\nauth_type = md5\nlisten_addr = 0.0.0.0\nlisten_port = 6432\n\n\n"
unfolding pgbouncer_ini write_databases_section database_line database_port sorted_keys sort_by
    write_key_value_section pgbouncer_config merged_config merge_overrides listen_port trim_space
    auth_file_path_from_config merge_map write_named_key_value_section sprint_int32 join
    insert_sorted
rendered = refl
