-- ===== src/Planner.antt =====
-- internal/planner/planner.go: which instances get PgBouncers and which are members of the services.
mod Select
mod Health
mod Io
mod Observe
mod Stabilize
pub mod Writers
pub mod Serving
pub mod Frame
pub mod Readers
pub mod Fallback
pub mod Plans
pub mod Justified
pub mod Identity
mod Tests
unfoldable pub use Select.*
unfoldable pub use Health.*
unfoldable pub use Io.*
unfoldable pub use Observe.*
unfoldable pub use Stabilize.*
use pgbouncer_aurora_operato.Base.{
  ltb, ◌=?◌, if◌then◌else◌, sort_by, sort_strings, ◌≡◌, ap, Bool, true, false, ◌&&◌, List, [], ◌∷◌,
  ◌==◌,
}
use pgbouncer_aurora_operato.Api.{InstanceStatus}
use pgbouncer_aurora_operato.Domain.{InstancePlan}

unfoldable pub sort_instance_plans : List InstancePlan → List InstancePlan
sort_instance_plans = sort_by (λ plan. plan.name)

abbrev pub plan_from_status : InstanceStatus → InstancePlan
plan_from_status item = record {
  observation = record {
    name = item.instance_name;
    endpoint = item.endpoint;
    port = item.port;
    role = item.role;
    availability_zone = item.availability_zone;
    dbi_resource_id = item.dbi_resource_id;
  };
  healthy = item.healthy;
  disabled = item.disabled;
  reason = item.reason;
  replicas = item.desired_replicas;
  ready_replicas = item.ready_replicas;
  consecutive_failures = item.consecutive_failures;
  consecutive_successes = item.consecutive_successes;
}

unfoldable pub plans_from_status : List InstanceStatus → List InstancePlan
plans_from_status [] = []
plans_from_status (item ∷ items) =
    let rest = plans_from_status items in
    if item.instance_name == "" then rest else plan_from_status item ∷ rest

unfoldable pub instance_plans_from_status : List InstanceStatus → List InstancePlan
instance_plans_from_status items = sort_instance_plans (plans_from_status items)

-- The branch of `Plan` for a discovery that is not trusted.
unfoldable pub frozen_plan : Input → Output
frozen_plan input = record {
  instances = instance_plans_from_status input.resource.status.instances;
  membership = record { writer = last_writer input.resource; reader = last_reader input.resource };
  frozen = true;
  reasons = "discovery untrusted" ∷ [];
  reader_fallback_suppressed = false;
  reader_fallback_suppressed_reason = "";
}

-- Every discovered reader is switched off.
abbrev pub suppresses_fallback : Gathered → Bool
suppresses_fallback g =
    ltb 0 g.discovered_reader_count
    && g.enabled_discovered_reader_count =? 0
    && g.disabled_discovered_reader_count =? g.discovered_reader_count

-- The output after the loop, sorted.
unfoldable pub observed_output : Gathered → Output
observed_output g = record {
  instances = sort_instance_plans g.instances;
  membership = record { writer = sort_strings g.writer; reader = sort_strings g.reader };
  frozen = false;
  reasons = [];
  reader_fallback_suppressed = suppresses_fallback g;
  reader_fallback_suppressed_reason =
      if suppresses_fallback g then "AllDiscoveredReadersDisabledByOverride" else "";
}

-- The loop over the discovered instances.
unfoldable pub gathered : Input → Gathered
gathered input =
    observe_all input (previous_instance_status input.resource.status.instances) input.discovered

unfoldable pub observed_plan : Input → Output
observed_plan input = observed_output (gathered input)

-- The plan with its writer settled and its missing readers kept.
unfoldable pub kept_plan : Input → Output
kept_plan input =
    preserve_missing_reader_membership input.resource
      (stabilize_writer_membership input.resource (observed_plan input) input.missing_instances)
      input.missing_instances

-- The branch of `Plan` for a discovery that is trusted.
unfoldable pub stabilized_plan : Input → Output
stabilized_plan input =
    stabilize_reader_membership input.resource (kept_plan input) input.missing_instances

unfoldable pub plan : Input → Output
plan input = if input.discovery_trusted then stabilized_plan input else frozen_plan input

pub plan_trusted :
    (input : Input) → input.discovery_trusted ≡ true → plan input ≡ stabilized_plan input
unfolding plan
plan_trusted input e =
    ap (λ trusted. if trusted then stabilized_plan input else frozen_plan input) e

pub plan_untrusted :
    (input : Input) → input.discovery_trusted ≡ false → plan input ≡ frozen_plan input
unfolding plan
plan_untrusted input e =
    ap (λ trusted. if trusted then stabilized_plan input else frozen_plan input) e
