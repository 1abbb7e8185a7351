-- ===== src/Planner/Observe.antt =====
-- internal/planner/planner.go: the loop of `Plan` over the discovered instances.
use pgbouncer_aurora_operato.Base.{
  ℕ, suc, String, List, [], ◌∷◌, Option, none, some, Bool, true, false, ◌==◌, lookup, if◌then◌else◌,
}
use pgbouncer_aurora_operato.Api.{InstanceStatus, role_reader, role_writer}
use pgbouncer_aurora_operato.Domain.{InstanceObservation, InstancePlan}
use pgbouncer_aurora_operato.Planner.Select.{
  physical_identity_changed, instance_disabled, replicas_for,
}
use pgbouncer_aurora_operato.Planner.Health.{
  apply_cached_health, apply_health, apply_monitor_thresholds,
}
use pgbouncer_aurora_operato.Planner.Io.{Input}

-- `v1alpha1.InstanceStatus{}`.
abbrev pub no_status : InstanceStatus
no_status = record {
  instance_name = "";
  endpoint = "";
  port = 0;
  role = "";
  availability_zone = "";
  dbi_resource_id = "";
  disabled = false;
  healthy = false;
  desired_replicas = 0;
  ready_replicas = 0;
  consecutive_failures = 0;
  consecutive_successes = 0;
  reason = "";
}

-- `previousStatus, hadPrevious`: what is stored under the name, unless another machine has it now.
unfoldable pub previous_for : Option InstanceStatus → InstanceObservation → InstanceStatus × Bool
previous_for none observed = (no_status, false)
previous_for (some previous) observed =
    if physical_identity_changed observed.dbi_resource_id previous.dbi_resource_id
    then (no_status, false)
    else (previous, true)

abbrev pub initial_plan : Input → InstanceObservation → InstancePlan
initial_plan input observed = record {
  observation = observed;
  healthy = false;
  disabled = false;
  reason = "monitor unknown";
  replicas = replicas_for input.resource.spec.pgbouncer observed.name;
  ready_replicas = 0;
  consecutive_failures = 0;
  consecutive_successes = 0;
}

-- The plan of an instance that the spec does not switch off.
unfoldable pub enabled_plan : Input → InstanceObservation → InstanceStatus × Bool → InstancePlan
enabled_plan input observed (previous, had_previous) =
    if input.cached_health
    then apply_cached_health (initial_plan input observed) previous
    else apply_monitor_thresholds input.resource
        (apply_health (initial_plan input observed) (lookup observed.name input.health)) previous
        had_previous

-- The body of the loop, up to the update of the membership.
unfoldable pub plan_for :
    Input → List (String × InstanceStatus) → InstanceObservation → InstancePlan
unfolding previous_for enabled_plan
plan_for input previous observed =
    if instance_disabled input.resource.spec.pgbouncer observed.name
    then record (initial_plan input observed) {
      disabled = true;
      reason = "disabled by spec.pgbouncer.instanceOverrides";
      replicas = 0;
    }
    else enabled_plan input observed (previous_for (lookup observed.name previous) observed)

-- What the loop gathers.
pub record Gathered : Type 0 where
  pub instances : List InstancePlan
  pub writer : List String
  pub reader : List String
  pub discovered_reader_count : ℕ
  pub disabled_discovered_reader_count : ℕ
  pub enabled_discovered_reader_count : ℕ

abbrev pub nothing_gathered : Gathered
nothing_gathered = record {
  instances = [];
  writer = [];
  reader = [];
  discovered_reader_count = 0;
  disabled_discovered_reader_count = 0;
  enabled_discovered_reader_count = 0;
}

-- The counters of the loop, for a reader.
abbrev pub count_reader : Bool → Gathered → Gathered
count_reader true g = record g {
  discovered_reader_count = suc g.discovered_reader_count;
  disabled_discovered_reader_count = suc g.disabled_discovered_reader_count;
}
count_reader false g = record g {
  discovered_reader_count = suc g.discovered_reader_count;
  enabled_discovered_reader_count = suc g.enabled_discovered_reader_count;
}

-- One plan, put in front of what the later observations give.
unfoldable pub gather : InstancePlan → Gathered → Gathered
gather plan later =
    let counted = if plan.role == role_reader then count_reader plan.disabled later else later in
    let g = record counted { instances = plan ∷ later.instances } in
    if plan.disabled
    then g
    else if plan.healthy
    then (if plan.role == role_writer
        then record g { writer = plan.name ∷ g.writer }
        else if plan.role == role_reader
        then record g { reader = plan.name ∷ g.reader }
        else g)
    else g

unfoldable pub observe_all :
    Input → List (String × InstanceStatus) → List InstanceObservation → Gathered
observe_all input previous [] = nothing_gathered
observe_all input previous (observed ∷ rest) =
    gather (plan_for input previous observed) (observe_all input previous rest)
