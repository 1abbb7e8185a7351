-- ===== src/Render/Config/Section.antt =====
-- internal/render/config.go: the section `[pgbouncer]`.
use pgbouncer_aurora_operato.Base.{
  if◌then◌else◌, Bool-cases, if_cases, sprint_int32, lookup, insert, lookup-insert, ℕ, ◌≤◌, String,
  ◌≡◌, sym, ap, ap₂, ◌∙◌, inl, inr, Bool, Option, none, some, [], ◌∷◌, arith, ◌==◌, eq_iff,
}
use pgbouncer_aurora_operato.Api.{PgBouncerAuroraSpec}
use pgbouncer_aurora_operato.Render.Merge.{merge_map, merged_config}
use pgbouncer_aurora_operato.Render.Merge.Laws.{
  or_else, lookup-merge_map, last_set, lookup-merged_config,
}
use pgbouncer_aurora_operato.Render.Config.{
  default_auth_file_path, default_listen_addr, default_pgbouncer_auth_type, trimmed_value,
  valid_port, listen_port, auth_file_path_from_config, auth_file_path, pgbouncer_config,
}

valid_port-bounds : (parsed : Option ℕ) → (1 ≤ valid_port parsed) × (valid_port parsed ≤ 65535)
valid_port-bounds none = (omega arith, omega arith)
valid_port-bounds (some port) = (ground arith, ground arith)

eq_sym : (s t : String) → s == t ≡ (t == s)
eq_sym s t = elim (Bool-cases (s == t)) [
  | inl e ↦ e ∙ sym ((eq_iff t s).1 (sym ((eq_iff s t).0 e)))
  | inr e ↦ ground (arith, e, eq_iff s t, eq_iff t s)
]

-- Whatever the configuration and the parser of numbers say, the port to listen on is between 1 and 65535.
pub listen_port-bounds :
    (atoi : String → Option ℕ) (spec : PgBouncerAuroraSpec)
    → (1 ≤ listen_port atoi spec) × (listen_port atoi spec ≤ 65535)
unfolding listen_port
listen_port-bounds atoi spec =
    let value = trimmed_value "listen_port" (merged_config spec "").pgbouncer in
    if_cases (λ (port : ℕ). (1 ≤ port) × (port ≤ 65535)) (value == "") _ _
      (λ _. (omega arith, omega arith)) (λ _. valid_port-bounds (atoi value))

-- The value of a key where neither an override nor the base sets it.
abbrev pub default_setting : String → Option String
default_setting key = lookup key (
    ("auth_type", default_pgbouncer_auth_type)
    ∷ ("auth_file", default_auth_file_path)
    ∷ ("listen_addr", default_listen_addr)
    ∷ [])

-- The listening port and the path of the user list are always those that the operator computes; any other key
-- has the value of the last override that sets it for the instance, else that of the base, else the default.
pub lookup-pgbouncer_config :
    (atoi : String → Option ℕ) (spec : PgBouncerAuroraSpec) (instance_name key : String)
    → lookup key (pgbouncer_config atoi spec instance_name) ≡ (
        if key == "listen_port"
        then some (sprint_int32 (listen_port atoi spec))
        else if key == "auth_file"
        then some (auth_file_path spec instance_name)
        else or_else
            (or_else
              (last_set key instance_name spec.pgbouncer.instance_overrides)
              (lookup key spec.pgbouncer.config.pgbouncer))
            (default_setting key))
unfolding pgbouncer_config auth_file_path
lookup-pgbouncer_config atoi spec instance_name key =
    let config = merged_config spec instance_name in
    let defaults =
      ("auth_type", default_pgbouncer_auth_type)
      ∷ ("auth_file", default_auth_file_path)
      ∷ ("listen_addr", default_listen_addr)
      ∷ [] in
    let merged = merge_map defaults config.pgbouncer in
    let with_auth = insert "auth_file" (auth_file_path_from_config config) merged in
    lookup-insert "listen_port" key (sprint_int32 (listen_port atoi spec)) with_auth
    ∙ ap
        (λ found.
          if "listen_port" == key then some (sprint_int32 (listen_port atoi spec)) else found)
        (lookup-insert "auth_file" key (auth_file_path_from_config config) merged
          ∙ ap
              (λ found.
                if "auth_file" == key then some (auth_file_path_from_config config) else found)
              (lookup-merge_map key defaults config.pgbouncer
                ∙ ap (λ found. or_else found (lookup key defaults))
                    (lookup-merged_config key spec instance_name)))
    ∙ ap₂
        (λ (port auth : Bool).
          if port
          then some (sprint_int32 (listen_port atoi spec))
          else if auth
          then some (auth_file_path_from_config config)
          else or_else
              (or_else (last_set key instance_name spec.pgbouncer.instance_overrides)
                (lookup key spec.pgbouncer.config.pgbouncer))
              (default_setting key))
        (eq_sym "listen_port" key) (eq_sym "auth_file" key)
