-- ===== src/Render/Merge.antt =====
-- internal/render/merge.go and the merging of internal/render/config.go. A Go map is an association list; the
-- loops over one visit it from its end, so that its first entry for a key is the one that counts.
pub mod Laws
use pgbouncer_aurora_operato.Base.{
  if◌then◌else◌, filter, contains, lookup, insert, String, not, Option, none, some, List, [], ◌∷◌,
  ◌++◌, map, ◌==◌,
}
use pgbouncer_aurora_operato.Api.{PgBouncerConfigSpec, InstanceOverrideSpec, PgBouncerAuroraSpec}

-- `mergeMap` and `mergeStringMapInto`: the entries of the overlay are stored over those of the base.
unfoldable pub merge_map {ℓ} :
    {V : Type ℓ} → List (String × V) → List (String × V) → List (String × V)
merge_map base [] = base
merge_map base ((key, value) ∷ overlay) = insert key value (merge_map base overlay)

-- `cloneMap((*base)[name])`: a missing map reads as an empty one.
abbrev pub map_or_empty {ℓ} : {V : Type ℓ} → Option (List (String × V)) → List (String × V)
map_or_empty none = []
map_or_empty (some values) = values

unfoldable pub merge_string_map_map_into :
    List (String × List (String × String))
    → List (String × List (String × String))
    → List (String × List (String × String))
merge_string_map_map_into base [] = base
merge_string_map_map_into base ((name, values) ∷ overlay) =
    let merged = merge_string_map_map_into base overlay in
    insert name (merge_map (map_or_empty (lookup name merged)) values) merged

unfoldable pub merge_config_into : PgBouncerConfigSpec → PgBouncerConfigSpec → PgBouncerConfigSpec
merge_config_into base overlay = record {
  pgbouncer = merge_map base.pgbouncer overlay.pgbouncer;
  databases = merge_string_map_map_into base.databases overlay.databases;
  users = merge_string_map_map_into base.users overlay.users;
  peers = merge_string_map_map_into base.peers overlay.peers;
}

-- The loop over the overrides of `mergedConfig`.
unfoldable pub merge_overrides :
    String → PgBouncerConfigSpec → List InstanceOverrideSpec → PgBouncerConfigSpec
merge_overrides instance_name config [] = config
merge_overrides instance_name config (override ∷ rest) =
    merge_overrides instance_name
      (if not (override.name == instance_name)
        then config
        else merge_config_into config override.config)
      rest

unfoldable pub merged_config : PgBouncerAuroraSpec → String → PgBouncerConfigSpec
merged_config spec instance_name =
    merge_overrides instance_name spec.pgbouncer.config spec.pgbouncer.instance_overrides

-- `mergeVolumeMounts` and `mergeVolumes`: those required, and then the existing ones with other names.
unfoldable pub merge_volumes {ℓ} : {A : Type ℓ} → (A → String) → List A → List A → List A
merge_volumes name existing required =
    required ++ filter (λ volume. not (contains (map name required) (name volume))) existing
