-- ===== src/Controller/Membership.antt =====
-- internal/controller/reconciler.go: when a plan is applied, the fast path of a writer failover, and what
-- is reported of a change. `hashObject` of the shapes of the instances is a parameter.
pub mod Writers
pub mod Failover
pub mod Changes
mod Events
pub mod Sets
use pgbouncer_aurora_operato.Base.{
  ◌=?◌, if◌then◌else◌, length, is_empty, filter, count, any, int32_lt, join, sort_by, sort_strings,
  contains, lookup, Answer, ok, map_answer, ℕ, String, Bool, true, false, not, ◌&&◌, ◌||◌, Option,
  none, some, List, [], ◌∷◌, ◌++◌, map, ◌==◌,
}
use pgbouncer_aurora_operato.Api.{
  PgBouncerAurora, role_writer, MissingInstanceStatus, InstanceStatus,
}
use pgbouncer_aurora_operato.Domain.{InstanceObservation, DiscoveryResult, InstancePlan}
use pgbouncer_aurora_operato.Planner.{plan, instance_disabled, Output, last_writer, last_reader}
use pgbouncer_aurora_operato.Controller.Due.{removed_instance_deletion_due}

unfoldable pub same_string_set : List String → List String → Bool
same_string_set left right =
    length left =? length right && not (any (λ value. not (contains left value)) right)

unfoldable pub membership_changed : List String → List String → Bool
membership_changed a b = not (length a =? length b) || any (λ value. not (contains a value)) b

-- The loop of `singleDiscoveredWriter`: `writer` is what was found before.
unfoldable pub single_writer_from : String → List InstanceObservation → String
single_writer_from writer [] = writer
single_writer_from writer (observed ∷ rest) =
    let same = single_writer_from writer rest in
    let next = single_writer_from observed.name rest in
    if not (observed.role == role_writer) then same else if not (writer == "") then "" else next

unfoldable pub single_discovered_writer : List InstanceObservation → String
single_discovered_writer instances = single_writer_from "" instances

abbrev pub ready_count : List (String × ℕ) → String → ℕ
ready_count counts name = elim (lookup name counts) [ none ↦ 0 | some count ↦ count ]

-- The loop that raises the ready replicas of the new writer.
unfoldable pub raise_ready : String → ℕ → List InstancePlan → List InstancePlan
raise_ready name count [] = []
raise_ready name count (plan ∷ plans) =
    (if plan.name == name && int32_lt plan.ready_replicas count
      then record plan { ready_replicas = count }
      else plan)
    ∷ raise_ready name count plans

-- The plan with the new writer as its only one.
unfoldable pub fail_over : String → ℕ → Output → Output
fail_over name count plan = record plan {
  membership = record (plan.membership) { writer = name ∷ [] };
  instances = raise_ready name count plan.instances;
  reasons = plan.reasons ++ "writer failover fast path" ∷ [];
}

-- The guards before the pods are counted.
unfoldable pub skips_fast_path : PgBouncerAurora → DiscoveryResult → Output → Bool
skips_fast_path resource discovery plan =
    let new_writer = single_discovered_writer discovery.instances in
    plan.frozen
    || not discovery.trusted
    || new_writer == ""
    || same_string_set (last_writer resource) (new_writer ∷ [])
    || is_empty (last_writer resource)
    || instance_disabled resource.spec.pgbouncer new_writer
    || same_string_set plan.membership.writer (new_writer ∷ [])

abbrev pub fail_over_if_ready : String → Output → List (String × ℕ) → Output
fail_over_if_ready new_writer plan counts =
    if ready_count counts new_writer =? 0
    then plan
    else fail_over new_writer (ready_count counts new_writer) plan

-- `ready_counts` is the answer of `readyPodCounts`.
unfoldable pub apply_writer_failover_fast_path :
    PgBouncerAurora → DiscoveryResult → Answer (List (String × ℕ)) → Output → Answer Output
apply_writer_failover_fast_path resource discovery ready_counts plan =
    if skips_fast_path resource discovery plan
    then ok plan
    else map_answer (fail_over_if_ready (single_discovered_writer discovery.instances) plan)
        ready_counts

pub record InstanceApplyShape : Type 0 where
  pub observation : InstanceObservation
  pub open observation use {name, endpoint, port, role, availability_zone, dbi_resource_id}
  pub disabled : Bool
  pub replicas : ℕ

abbrev pub shape_of_plan : InstancePlan → InstanceApplyShape
shape_of_plan instance_plan = record {
  observation = instance_plan.observation;
  disabled = instance_plan.disabled;
  replicas = instance_plan.replicas;
}

unfoldable pub instance_apply_shape_from_plan : List InstancePlan → List InstanceApplyShape
instance_apply_shape_from_plan instances =
    sort_by (λ shape. shape.name) (map shape_of_plan instances)

abbrev pub shape_of_status : InstanceStatus → InstanceApplyShape
shape_of_status status = record {
  observation = record {
    name = status.instance_name;
    endpoint = status.endpoint;
    port = status.port;
    role = status.role;
    availability_zone = status.availability_zone;
    dbi_resource_id = status.dbi_resource_id;
  };
  disabled = status.disabled;
  replicas = status.desired_replicas;
}

unfoldable pub instance_apply_shape_from_status : List InstanceStatus → List InstanceApplyShape
instance_apply_shape_from_status statuses =
    sort_by (λ shape. shape.name) (map shape_of_status statuses)

abbrev pub is_none : Option ℕ → Bool
is_none none = true
is_none (some time) = false

module _ (hash_shapes : List InstanceApplyShape → String) where
  unfoldable pub plan_desired_state_changed : PgBouncerAurora → Output → Bool
  plan_desired_state_changed resource plan =
      membership_changed (last_writer resource) plan.membership.writer
      || membership_changed (last_reader resource) plan.membership.reader
      || not (
          hash_shapes (instance_apply_shape_from_status resource.status.instances)
          == hash_shapes (instance_apply_shape_from_plan plan.instances))

  -- Whether the plan is applied, and why; `drift` is the answer of `cachedPlanNeedsApply`.
  unfoldable pub should_apply_plan :
      PgBouncerAurora
      → Output
      → List MissingInstanceStatus
      → Bool
      → Bool
      → ℕ
      → Answer (Bool × String)
      → Answer (Bool × String)
  should_apply_plan resource plan missing_instances discovery_ran monitor_ran now drift =
      if plan.frozen
      then ok (false, "frozen")
      else if not (resource.generation =? resource.status.observed_generation)
          || is_none resource.status.last_applied_time
      then ok (true, "generation-or-never-applied")
      else if (discovery_ran || monitor_ran) && plan_desired_state_changed resource plan
      then ok (true, "desired-state-changed")
      else if removed_instance_deletion_due resource missing_instances now
      then ok (true, "removed-instance-retention-expired")
      else drift

unfoldable pub string_set_diff : List String → List String → List String
string_set_diff left right = sort_strings (filter (λ value. not (contains right value)) left)

unfoldable pub single_string : List String → String
single_string [] = ""
single_string (value ∷ []) = value
single_string (value ∷ other ∷ values) = join (value ∷ other ∷ values) ","

pub record TopologyEventLog : Type 0 where
  pub event : String
  pub old_writer : String
  pub new_writer : String
  pub added_readers : List String
  pub removed_readers : List String

-- The event of a report, by the branches in their order.
abbrev pub event_of : String → String → List String → List String → String
event_of old_writer new_writer added_readers removed_readers =
    if not (old_writer == "") && not (new_writer == "") && not (old_writer == new_writer)
    then "failover"
    else if not (is_empty added_readers) && not (is_empty removed_readers)
    then "reader_membership_changed"
    else if not (is_empty added_readers)
    then "reader_added"
    else if not (is_empty removed_readers)
    then "reader_removed"
    else ""

unfoldable pub topology_event_report : PgBouncerAurora → Output → TopologyEventLog
topology_event_report resource plan =
    let old_writer = single_string (last_writer resource) in
    let new_writer = single_string plan.membership.writer in
    let added_readers = string_set_diff plan.membership.reader (last_reader resource) in
    let removed_readers = string_set_diff (last_reader resource) plan.membership.reader in
    record {
      event = event_of old_writer new_writer added_readers removed_readers;
      old_writer = old_writer;
      new_writer = new_writer;
      added_readers = added_readers;
      removed_readers = removed_readers;
    }
