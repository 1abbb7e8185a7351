-- ===== src/Controller/Zones.antt =====
-- internal/controller/reconciler.go: an instance whose zone the pod template keeps its pods out of.
pub mod Policy
use pgbouncer_aurora_operato.Base.{
  if◌then◌else◌, is_empty, any, trim_space, join, sort_strings, lookup, String, ◌^^◌, Bool, true,
  false, not, ◌&&◌, Option, none, some, List, [], ◌∷◌, ◌++◌, ◌==◌,
}
use pgbouncer_aurora_operato.Api.{
  PgBouncerAurora, NodeSelectorRequirement, NodeSelectorTerm, condition_true, condition_false,
}
use pgbouncer_aurora_operato.Domain.{InstancePlan}
use pgbouncer_aurora_operato.Planner.{plan, enabled_default_true, Output}
use pgbouncer_aurora_operato.Controller.Conditions.{Judgement}
use pgbouncer_aurora_operato.Controller.Pods.{active_plan_instances}

-- `firstNonEmpty`, which looks at the trimmed text and gives the text itself.
unfoldable pub first_non_empty : List String → String
first_non_empty [] = ""
first_non_empty (value ∷ values) =
    let later = first_non_empty values in if trim_space value == "" then later else value

unfoldable pub string_slice_contains : List String → String → Bool
string_slice_contains values needle = any (λ value. value == needle) values

-- The cases of the `switch`; other operators pass on to the next expression.
abbrev pub expression_allows : NodeSelectorRequirement → String → Bool → Bool
expression_allows expression zone later =
    if expression.operator == "In"
    then string_slice_contains expression.values zone
    else if expression.operator == "NotIn"
    then not (string_slice_contains expression.values zone)
    else if expression.operator == "Exists"
    then true
    else if expression.operator == "DoesNotExist"
    then false
    else later

-- The loop over the expressions. Whether a field matches or not, the answer after it is true.
unfoldable pub expressions_allow : List NodeSelectorRequirement → String → String → Bool
expressions_allow [] topology_key zone = true
expressions_allow (expression ∷ rest) topology_key zone =
    let later = expressions_allow rest topology_key zone in
    if not (expression.key == topology_key) then later else expression_allows expression zone later

unfoldable pub node_selector_term_allows_zone : NodeSelectorTerm → String → String → Bool
node_selector_term_allows_zone term topology_key zone =
    if not (expressions_allow term.match_expressions topology_key zone)
    then false
    else if any (λ field. field.key == topology_key) term.match_fields
    then true
    else true

unfoldable pub required_node_affinity_conflicts :
    Option (List NodeSelectorTerm) → String → String → Bool
required_node_affinity_conflicts none topology_key zone = false
required_node_affinity_conflicts (some terms) topology_key zone =
    if is_empty terms
    then false
    else not (any (λ term. node_selector_term_allows_zone term topology_key zone) terms)

unfoldable pub has_topology_spread_on_key : PgBouncerAurora → String → Bool
has_topology_spread_on_key resource topology_key =
    any (λ key. key == topology_key) resource.spec.pgbouncer.topology_spread_constraints

-- The copy of the selector, which the caller only reads.
unfoldable pub effective_node_selector : PgBouncerAurora → List (String × String)
effective_node_selector resource = resource.spec.pgbouncer.node_selector

abbrev pub selects_other_zone : Option String → String → Bool
selects_other_zone none zone = false
selects_other_zone (some selected) zone = not (selected == zone)

abbrev pub selected_text : Option String → String
selected_text none = ""
selected_text (some selected) = selected

-- The messages about an instance: the body of the loop.
unfoldable pub zone_messages : PgBouncerAurora → String → InstancePlan → List String
zone_messages resource topology_key instance_plan =
    let selected = lookup topology_key (effective_node_selector resource) in
    let requires =
      instance_plan.name ^^ " requires " ^^ topology_key ^^ "="
      ^^ instance_plan.availability_zone in
    let selector =
      if selects_other_zone selected instance_plan.availability_zone
      then (requires ^^ " but nodeSelector fixes " ^^ topology_key ^^ "=" ^^ selected_text selected)
        ∷ []
      else [] in
    let affinity =
      if required_node_affinity_conflicts resource.spec.pgbouncer.required_node_affinity
        topology_key instance_plan.availability_zone
      then (requires ^^ " but required nodeAffinity excludes it") ∷ []
      else [] in
    if instance_plan.availability_zone == "" then [] else selector ++ affinity

unfoldable pub zones_messages : PgBouncerAurora → String → List InstancePlan → List String
zones_messages resource topology_key [] = []
zones_messages resource topology_key (instance_plan ∷ rest) =
    zone_messages resource topology_key instance_plan ++ zones_messages resource topology_key rest

unfoldable pub spread_messages : PgBouncerAurora → String → List String
spread_messages resource topology_key =
    if resource.spec.topology_policy.zone_aware.enforcement == "Required"
      && has_topology_spread_on_key resource topology_key
    then ("zoneAware Required pins pods to a single " ^^ topology_key
        ^^ " while topologySpreadConstraints also spread by " ^^ topology_key)
      ∷ []
    else []

abbrev pub zone_topology_key : PgBouncerAurora → String
zone_topology_key resource =
    first_non_empty
      (resource.spec.topology_policy.zone_aware.topology_key ∷ "topology.kubernetes.io/zone" ∷ [])

abbrev pub all_zone_messages : PgBouncerAurora → Output → List String
all_zone_messages resource plan =
    zones_messages resource (zone_topology_key resource) (active_plan_instances plan.instances)
    ++ spread_messages resource (zone_topology_key resource)

unfoldable pub zone_aware_conflict_condition : PgBouncerAurora → Output → Judgement
zone_aware_conflict_condition resource plan =
    let zone_aware = resource.spec.topology_policy.zone_aware in
    let messages = all_zone_messages resource plan in
    if not (enabled_default_true zone_aware.enabled)
    then (condition_false, "ZoneAwareDisabled", "")
    else if zone_aware.conflict_policy == "Ignore"
    then (condition_false, "ConflictIgnored", "")
    else if is_empty messages
    then (condition_false, "NoZoneAwareConflict", "")
    else (
      condition_true,
      if zone_aware.conflict_policy == "Fail"
          then "ZoneAwareConflictFail"
          else "ZoneAwareConflictWarn",
      join (sort_strings messages) "; ",
    )

abbrev pub freeze_for : Judgement → Output → Output
freeze_for (status, reason, message) plan =
    if not (status == condition_true) then plan else record plan {
      frozen = true;
      reasons =
          plan.reasons
          ++ ("zoneAware conflict: " ^^ (if message == "" then reason else message)) ∷ [];
    }

unfoldable pub apply_zone_aware_conflict_policy : PgBouncerAurora → Output → Output
apply_zone_aware_conflict_policy resource plan =
    if plan.frozen
    then plan
    else if not (resource.spec.topology_policy.zone_aware.conflict_policy == "Fail")
    then plan
    else freeze_for (zone_aware_conflict_condition resource plan) plan
