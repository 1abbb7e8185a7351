-- ===== src/Render/Merge/Laws.antt =====
-- internal/render/merge.go and config.go: which value a key has after the merging.
use pgbouncer_aurora_operato.Base.{
  if◌then◌else◌, if_cases, if_true, if_false, is_false, lookup, lookup-insert, String, ◌≡◌, refl,
  sym, ap, ◌∙◌, Bool, true, false, not, Option, none, some, List, [], ◌∷◌, ◌==◌,
}
use pgbouncer_aurora_operato.Api.{PgBouncerConfigSpec, InstanceOverrideSpec, PgBouncerAuroraSpec}
use pgbouncer_aurora_operato.Render.Merge.{
  merge_map, merge_config_into, merge_overrides, merged_config,
}

-- The first value if there is one.
abbrev pub or_else {ℓ} : {V : Type ℓ} → Option V → Option V → Option V
or_else none other = other
or_else (some value) other = some value

or_else_assoc {ℓ} :
    {V : Type ℓ} (a b c : Option V) → or_else a (or_else b c) ≡ or_else (or_else a b) c
or_else_assoc none b c = refl
or_else_assoc (some v) b c = refl

if_or_else {ℓ} :
    {V : Type ℓ} (b : Bool) (v : V) (found base : Option V)
    → (if b then some v else or_else found base) ≡ or_else (if b then some v else found) base
if_or_else true v found base = refl
if_or_else false v found base = refl

is_true : {b : Bool} → not b ≡ false → b ≡ true
is_true {b = true} h = refl
is_true {b = false} h = cc

pub lookup-merge_map {ℓ} :
    {V : Type ℓ} (k : String) (base overlay : List (String × V))
    → lookup k (merge_map base overlay) ≡ or_else (lookup k overlay) (lookup k base)
unfolding merge_map
lookup-merge_map k base [] = refl
lookup-merge_map k base ((key, value) ∷ overlay) =
    lookup-insert key k value (merge_map base overlay)
    ∙ ap (λ found. if key == k then some value else found) (lookup-merge_map k base overlay)
    ∙ if_or_else (key == k) value (lookup k overlay) (lookup k base)

-- The value that the last override of the instance to set the key gives it.
abbrev pub last_set : String → String → List InstanceOverrideSpec → Option String
last_set key instance_name [] = none
last_set key instance_name (override ∷ rest) =
    or_else (last_set key instance_name rest)
      (if override.name == instance_name then lookup key override.config.pgbouncer else none)

lookup-merge_overrides :
    (key instance_name : String) (config : PgBouncerConfigSpec)
    (overrides : List InstanceOverrideSpec)
    → lookup key (merge_overrides instance_name config overrides).pgbouncer
      ≡ or_else (last_set key instance_name overrides) (lookup key config.pgbouncer)
unfolding merge_overrides merge_config_into
lookup-merge_overrides key instance_name config [] = refl
lookup-merge_overrides key instance_name config (override ∷ rest) =
    let merged =
      if not (override.name == instance_name)
      then config
      else merge_config_into config override.config in
    lookup-merge_overrides key instance_name merged rest
    ∙ ap (or_else (last_set key instance_name rest)) (
        if_cases
          (λ (c : PgBouncerConfigSpec).
            lookup key c.pgbouncer
            ≡ or_else
                (if override.name == instance_name
                  then lookup key override.config.pgbouncer
                  else none)
                (lookup key config.pgbouncer))
          (not (override.name == instance_name)) _ _
          (λ other.
            ap (λ found. or_else found (lookup key config.pgbouncer))
              (sym (if_false _ _ (is_false other))))
          (λ same.
            lookup-merge_map key config.pgbouncer override.config.pgbouncer
            ∙ ap (λ found. or_else found (lookup key config.pgbouncer))
                (sym (if_true _ _ (is_true same)))))
    ∙ or_else_assoc (last_set key instance_name rest) _ (lookup key config.pgbouncer)

-- In the merged configuration of an instance, a key has the value of the last override that sets it for the
-- instance, and else that of the base.
pub lookup-merged_config :
    (key : String) (spec : PgBouncerAuroraSpec) (instance_name : String)
    → lookup key (merged_config spec instance_name).pgbouncer
      ≡ or_else
          (last_set key instance_name spec.pgbouncer.instance_overrides)
          (lookup key spec.pgbouncer.config.pgbouncer)
unfolding merged_config
lookup-merged_config key spec instance_name =
    lookup-merge_overrides key instance_name spec.pgbouncer.config spec.pgbouncer.instance_overrides
