-- ===== src/Controller/Cache.antt =====
-- internal/controller/reconciler.go and scheduler.go: when the stored topology stands in for a
-- discovery, and the stored health for a check.
pub mod Source
use pgbouncer_aurora_operato.Base.{
  ◌=?◌, if◌then◌else◌, length, is_empty, filter, any, int32_add, int32_lt, int32_pos, lookup,
  insert, Answer, ok, map_answer, ℕ, String, Bool, true, false, not, ◌&&◌, ◌||◌, Option, none, some,
  List, [], ◌∷◌, map, ◌==◌,
}
use pgbouncer_aurora_operato.Api.{
  PgBouncerAurora, InstanceTopologyStatus, InstanceStatus, Condition, condition_true,
}
use pgbouncer_aurora_operato.Domain.{InstanceObservation, DiscoveryResult, HealthStatus}
use pgbouncer_aurora_operato.Planner.{instance_disabled, progress}
use pgbouncer_aurora_operato.Controller.Due.{discovery_due}

abbrev pub discovery_failure_threshold : PgBouncerAurora → ℕ
discovery_failure_threshold resource =
    if int32_pos resource.spec.discovery.failure_threshold
    then resource.spec.discovery.failure_threshold
    else 3

-- The first condition of the type decides.
unfoldable pub trusted_in : List Condition → Bool
trusted_in [] = false
trusted_in (condition ∷ rest) =
    let later = trusted_in rest in
    if condition.type == "DiscoveryTrusted" then condition.status == condition_true else later

unfoldable pub last_discovery_trusted : PgBouncerAurora → Bool
last_discovery_trusted resource = trusted_in resource.status.conditions

unfoldable pub message_in : List Condition → String
message_in [] = "using cached discovery"
message_in (condition ∷ rest) =
    let later = message_in rest in
    if condition.type == "DiscoveryTrusted" && not (condition.message == "")
    then condition.message
    else later

unfoldable pub last_discovery_message : PgBouncerAurora → String
last_discovery_message resource = message_in resource.status.conditions

abbrev pub topology_observation : InstanceTopologyStatus → InstanceObservation
topology_observation status = record {
  name = status.instance_name;
  endpoint = status.endpoint;
  port = status.port;
  role = status.role;
  availability_zone = status.availability_zone;
  dbi_resource_id = status.dbi_resource_id;
}

abbrev pub topology_observations : List InstanceTopologyStatus → List InstanceObservation
topology_observations = map topology_observation

abbrev pub topology_status_of : InstanceObservation → InstanceTopologyStatus
topology_status_of instance_observation = record {
  instance_name = instance_observation.name;
  endpoint = instance_observation.endpoint;
  port = instance_observation.port;
  role = instance_observation.role;
  availability_zone = instance_observation.availability_zone;
  dbi_resource_id = instance_observation.dbi_resource_id;
}

abbrev pub topology_status : List InstanceObservation → List InstanceTopologyStatus
topology_status = map topology_status_of

-- `failures >= threshold || !lastDiscoveryTrusted || nothing known`.
unfoldable pub cache_unusable : PgBouncerAurora → Bool
cache_unusable resource =
    not (
      int32_lt (int32_add resource.status.consecutive_discovery_failures 1)
        (discovery_failure_threshold resource))
    || not (last_discovery_trusted resource)
    || is_empty resource.status.last_known_topology

unfoldable pub cached_result : PgBouncerAurora → String → DiscoveryResult
cached_result resource reason = record {
  trusted = true;
  instances = topology_observations resource.status.last_known_topology;
  reason = reason;
}

unfoldable pub discovery_after_failure_threshold :
    PgBouncerAurora → DiscoveryResult → DiscoveryResult
discovery_after_failure_threshold resource untrusted_result =
    let failures = int32_add resource.status.consecutive_discovery_failures 1 in
    if cache_unusable resource
    then untrusted_result
    else cached_result resource (
        if untrusted_result.reason == ""
        then "using cached discovery after transient failure"
        else progress "using cached discovery after transient failure" failures
            (discovery_failure_threshold resource) untrusted_result.reason)

-- scheduler.go: what a reconcile that does not discover works with.
unfoldable pub cached_discovery : PgBouncerAurora → DiscoveryResult
cached_discovery resource =
    if not (last_discovery_trusted resource) || is_empty resource.status.last_known_topology
    then record { trusted = false; instances = []; reason = last_discovery_message resource }
    else cached_result resource (last_discovery_message resource)

-- `discovery, discoveryRan, discoveryFailed`.
pub record Discovered : Type 0 where
  pub discovery : DiscoveryResult
  pub ran : Bool
  pub discovery_failed : Bool

abbrev pub judged : PgBouncerAurora → DiscoveryResult → Discovered
judged resource discovery =
    if discovery.trusted
    then record { discovery = discovery; ran = true; discovery_failed = false }
    else record {
      discovery = discovery_after_failure_threshold resource discovery;
      ran = true;
      discovery_failed = true;
    }

-- What the discovery provider answers is an argument; an error ends the reconcile.
unfoldable pub discovery_for :
    (PgBouncerAurora → Answer DiscoveryResult) → PgBouncerAurora → ℕ → Answer Discovered
discovery_for provider resource now =
    if discovery_due resource now
    then map_answer (judged resource) (provider resource)
    else if not (last_discovery_trusted resource)
    then ok (record {
      discovery = record {
        trusted = false;
        instances = [];
        reason = "discovery retry interval not due";
      };
      ran = false;
      discovery_failed = false;
    })
    else ok (record {
      discovery = cached_result resource (last_discovery_message resource);
      ran = false;
      discovery_failed = false;
    })

unfoldable pub active_discovery_instances :
    PgBouncerAurora → List InstanceObservation → List InstanceObservation
active_discovery_instances resource =
    filter (λ observation. not (instance_disabled resource.spec.pgbouncer observation.name))

unfoldable pub health_from :
    List (String × HealthStatus) → List InstanceStatus → List (String × HealthStatus)
health_from out [] = out
health_from out (status ∷ statuses) =
    health_from
      (if status.instance_name == ""
        then out
        else insert status.instance_name
            (record { healthy = status.healthy; reason = status.reason; ready_replicas = 0 }) out)
      statuses

unfoldable pub health_from_status : List InstanceStatus → List (String × HealthStatus)
health_from_status statuses = health_from [] statuses

unfoldable pub status_by_name :
    List (String × InstanceTopologyStatus)
    → List InstanceTopologyStatus
    → List (String × InstanceTopologyStatus)
status_by_name out [] = out
status_by_name out (status ∷ statuses) =
    status_by_name (insert status.instance_name status out) statuses

abbrev pub differs : InstanceObservation → Option InstanceTopologyStatus → Bool
differs observation none = true
differs observation (some status) =
    not (status.endpoint == observation.endpoint)
    || not (status.port =? observation.port)
    || not (status.role == observation.role)
    || not (status.availability_zone == observation.availability_zone)
    || not (status.dbi_resource_id == observation.dbi_resource_id)

unfoldable pub topology_changed : List InstanceObservation → List InstanceTopologyStatus → Bool
topology_changed instances statuses =
    not (length instances =? length statuses)
    || any
        (λ observation. differs observation (lookup observation.name (status_by_name [] statuses)))
        instances
