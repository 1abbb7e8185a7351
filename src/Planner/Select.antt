-- ===== src/Planner/Select.antt =====
-- internal/planner/planner.go: the helpers that read the spec, the stored status and name lists.
use pgbouncer_aurora_operato.Base.{
  ℕ, String, List, [], ◌∷◌, Option, none, some, Bool, true, false, not, ◌&&◌, ◌==◌, filter, any,
  contains, insert, int32_pos, int32_lt, if◌then◌else◌,
}
use pgbouncer_aurora_operato.Api.{
  PgBouncerSpec, InstanceOverrideSpec, InstanceStatus, MissingInstanceStatus,
}

abbrev pub default_int32 : ℕ → ℕ → ℕ
default_int32 value fallback = if int32_pos value then value else fallback

abbrev pub enabled_default_true : Option Bool → Bool
enabled_default_true none = true
enabled_default_true (some value) = value

abbrev pub physical_identity_changed : String → String → Bool
physical_identity_changed current previous =
    not (current == "") && not (previous == "") && not (current == previous)

-- `override.Enabled != nil && !*override.Enabled`.
abbrev pub switched_off : Option Bool → Bool
switched_off none = false
switched_off (some value) = not value

-- The loop over the overrides of `instanceDisabled`.
unfoldable pub override_disables : List InstanceOverrideSpec → String → Bool
override_disables overrides instance_name =
    any (λ override. override.name == instance_name && switched_off override.enabled) overrides

unfoldable pub instance_disabled : PgBouncerSpec → String → Bool
instance_disabled spec instance_name = override_disables spec.instance_overrides instance_name

-- The loop over the overrides of `replicasFor`: the first positive count for the instance.
unfoldable pub override_replicas : List InstanceOverrideSpec → String → ℕ → ℕ
override_replicas [] instance_name replicas = replicas
override_replicas (override ∷ rest) instance_name replicas =
    let later = override_replicas rest instance_name replicas in
    if override.name == instance_name && int32_pos override.replicas
    then override.replicas
    else later

abbrev pub spec_replicas : Option ℕ → ℕ
spec_replicas none = 1
spec_replicas (some replicas) = if int32_pos replicas then replicas else 1

unfoldable pub replicas_for : PgBouncerSpec → String → ℕ
unfolding override_replicas
replicas_for spec instance_name =
    override_replicas spec.instance_overrides instance_name (spec_replicas spec.replicas)

-- A later entry of one name replaces an earlier one.
unfoldable pub previous_from :
    List (String × InstanceStatus) → List InstanceStatus → List (String × InstanceStatus)
previous_from out [] = out
previous_from out (item ∷ items) =
    previous_from (if item.instance_name == "" then out else insert item.instance_name item out)
      items

unfoldable pub previous_instance_status : List InstanceStatus → List (String × InstanceStatus)
unfolding previous_from
previous_instance_status items = previous_from [] items

-- `nil` for an empty list is the empty list.
unfoldable pub filter_enabled_instances : PgBouncerSpec → List String → List String
filter_enabled_instances spec values = filter (λ value. not (instance_disabled spec value)) values

-- Whether a name is missing and its count lies below the threshold (`activeMissing[name]`).
unfoldable pub active_missing : List MissingInstanceStatus → ℕ → String → Bool
active_missing missing_instances threshold name =
    any
      (λ missing.
        not (missing.instance_name == "")
        && int32_lt missing.missing_count threshold
        && missing.instance_name == name)
      missing_instances

unfoldable pub previous_missing_membership_before_remove_threshold :
    List String → List MissingInstanceStatus → ℕ → List String
previous_missing_membership_before_remove_threshold previous missing_instances threshold =
    filter (active_missing missing_instances threshold) previous

unfoldable pub previous_current_membership : List String → List String → List String
previous_current_membership previous current = filter (contains current) previous
