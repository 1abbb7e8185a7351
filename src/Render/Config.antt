-- ===== src/Render/Config.antt =====
-- internal/render/config.go: the text of `pgbouncer.ini`. `strconv.Atoi` and `strings.ToLower` are arguments.
pub mod Section
mod Tests
use pgbouncer_aurora_operato.Base.{
  ltb, ◌=?◌, if◌then◌else◌, is_empty, filter, int64_pos, sprint_int32, trim_space, join,
  sort_strings, lookup, insert, ℕ, String, ◌^^◌, Bool, not, ◌||◌, Option, none, some, List, [], ◌∷◌,
  map, ◌==◌,
}
use pgbouncer_aurora_operato.Api.{PgBouncerConfigSpec, PgBouncerAuroraSpec}
use pgbouncer_aurora_operato.Domain.{InstanceObservation}
use pgbouncer_aurora_operato.Render.Merge.{merge_map, map_or_empty, merged_config}

abbrev pub default_auth_file_path : String
default_auth_file_path = "/etc/pgbouncer/userlist.txt"

abbrev pub default_listen_addr : String
default_listen_addr = "0.0.0.0"

abbrev pub default_pgbouncer_auth_type : String
default_pgbouncer_auth_type = "md5"

abbrev pub default_pgbouncer_listen_port : ℕ
default_pgbouncer_listen_port = 6432

-- `strings.TrimSpace(m[key])`.
abbrev pub trimmed_value : String → List (String × String) → String
trimmed_value key values = trim_space (elim (lookup key values) [ none ↦ "" | some value ↦ value ])

abbrev pub valid_port : Option ℕ → ℕ
valid_port none = default_pgbouncer_listen_port
valid_port (some port) =
    if not (int64_pos port) || ltb 65535 port then default_pgbouncer_listen_port else port

-- The value of `strconv.Atoi` is an `int64` bit pattern.
unfoldable pub listen_port : (String → Option ℕ) → PgBouncerAuroraSpec → ℕ
listen_port atoi spec =
    let value = trimmed_value "listen_port" (merged_config spec "").pgbouncer in
    if value == "" then default_pgbouncer_listen_port else valid_port (atoi value)

unfoldable pub auth_file_path_from_config : PgBouncerConfigSpec → String
auth_file_path_from_config config =
    let value = trimmed_value "auth_file" config.pgbouncer in
    if value == "" then default_auth_file_path else value

unfoldable pub auth_file_path : PgBouncerAuroraSpec → String → String
auth_file_path spec instance_name = auth_file_path_from_config (merged_config spec instance_name)

-- The map `pgbouncerConfig`.
unfoldable pub pgbouncer_config :
    (String → Option ℕ) → PgBouncerAuroraSpec → String → List (String × String)
pgbouncer_config atoi spec instance_name =
    let config = merged_config spec instance_name in
    let defaults =
      ("auth_type", default_pgbouncer_auth_type)
      ∷ ("auth_file", default_auth_file_path)
      ∷ ("listen_addr", default_listen_addr)
      ∷ [] in
    insert "listen_port" (sprint_int32 (listen_port atoi spec))
      (insert "auth_file" (auth_file_path_from_config config) (merge_map defaults config.pgbouncer))

-- The keys of a map, sorted.
unfoldable pub sorted_keys {ℓ} : {V : Type ℓ} → List (String × V) → List String
sorted_keys values = sort_strings (map (λ entry. entry.0) values)

unfoldable pub is_managed_database_key : (String → String) → String → Bool
is_managed_database_key to_lower key = to_lower key == "host" || to_lower key == "port"

abbrev pub text_at : String → List (String × String) → String
text_at key values = elim (lookup key values) [ none ↦ "" | some value ↦ value ]

unfoldable pub database_port : PgBouncerAuroraSpec → InstanceObservation → ℕ
database_port spec instance_observation =
    if not (instance_observation.port =? 0)
    then instance_observation.port
    else if not (spec.discovery.port =? 0)
    then spec.discovery.port
    else 5432

unfoldable pub database_line :
    (String → String)
    → String
    → PgBouncerAuroraSpec
    → InstanceObservation
    → List (String × String)
    → String
database_line to_lower name spec instance_observation options =
    join
      ((name ^^ " =")
        ∷ ("host=" ^^ instance_observation.endpoint)
        ∷ ("port=" ^^ sprint_int32 (database_port spec instance_observation))
        ∷ map (λ key. key ^^ "=" ^^ text_at key options)
            (filter (λ key. not (is_managed_database_key to_lower key)) (sorted_keys options)))
      " "

-- Each text on a line of its own, and an empty line.
abbrev pub lines : List String → String
lines [] = "\n"
lines (line ∷ rest) = line ^^ "\n" ^^ lines rest

unfoldable pub write_databases_section :
    (String → String)
    → PgBouncerAuroraSpec
    → InstanceObservation
    → List (String × List (String × String))
    → String
write_databases_section to_lower spec instance_observation databases =
    let effective = if is_empty databases then ("*", []) ∷ [] else databases in
    lines (
      "[databases]"
      ∷ map
          (λ name.
            database_line to_lower name spec instance_observation
              (map_or_empty (lookup name effective)))
          (sorted_keys effective))

unfoldable pub write_key_value_section : String → List (String × String) → String
write_key_value_section name values =
    lines
      (("[" ^^ name ^^ "]") ∷ map (λ key. key ^^ " = " ^^ text_at key values) (sorted_keys values))

abbrev pub named_line : String → List (String × String) → String
named_line name values =
    join ((name ^^ " =") ∷ map (λ key. key ^^ "=" ^^ text_at key values) (sorted_keys values)) " "

-- The callers pass no keys to ignore.
unfoldable pub write_named_key_value_section :
    String → List (String × List (String × String)) → String
write_named_key_value_section section values =
    if is_empty values
    then ""
    else lines (
        ("[" ^^ section ^^ "]")
        ∷ map (λ name. named_line name (map_or_empty (lookup name values))) (sorted_keys values))

unfoldable pub pgbouncer_ini :
    (String → Option ℕ)
    → (String → String)
    → (String → String)
    → PgBouncerAuroraSpec
    → InstanceObservation
    → String
pgbouncer_ini atoi to_lower trim_newlines spec instance_observation =
    let config = merged_config spec instance_observation.name in
    trim_newlines (
      write_databases_section to_lower spec instance_observation config.databases
      ^^ write_key_value_section "pgbouncer" (pgbouncer_config atoi spec instance_observation.name)
      ^^ write_named_key_value_section "users" config.users
      ^^ write_named_key_value_section "peers" config.peers)
    ^^ "\n"
