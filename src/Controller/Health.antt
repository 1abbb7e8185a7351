-- ===== src/Controller/Health.antt =====
-- internal/controller/reconciler.go: the health that a reconcile works with. The health monitor is an argument.
pub mod Changed
use pgbouncer_aurora_operato.Base.{
  ◌=?◌, if◌then◌else◌, is_empty, any, int32_add, insert, erase, Answer, ok, failed, map_answer, ℕ,
  String, Bool, true, false, not, ◌&&◌, ◌||◌, Option, none, some, List, [], ◌∷◌, ◌==◌,
}
use pgbouncer_aurora_operato.Api.{PgBouncerAurora, InstanceStatus}
use pgbouncer_aurora_operato.Domain.{InstanceObservation, DiscoveryResult, HealthStatus}
use pgbouncer_aurora_operato.Kubernetes.{Pod, pod_label}
use pgbouncer_aurora_operato.Controller.Due.{monitor_due}
use pgbouncer_aurora_operato.Controller.Cache.{
  active_discovery_instances, health_from_status, topology_changed,
}
use pgbouncer_aurora_operato.Controller.Labels.{label_instance}
use pgbouncer_aurora_operato.Controller.Membership.{ready_count}

unfoldable pub pod_ready : Pod → Bool
pod_ready pod =
    if pod.deleting
    then false
    else any (λ condition. condition.0 == "Ready" && condition.1 == "True") pod.conditions

-- The loop over the pods that the API lists; the counts are `int32`.
unfoldable pub count_ready : List (String × ℕ) → List Pod → List (String × ℕ)
count_ready counts [] = counts
count_ready counts (pod ∷ pods) =
    let name = pod_label pod label_instance in
    count_ready
      (if not (pod_ready pod)
        then counts
        else if not (name == "")
        then insert name (int32_add (ready_count counts name) 1) counts
        else counts)
      pods

unfoldable pub ready_pod_counts : Answer (List Pod) → Answer (List (String × ℕ))
ready_pod_counts pods = map_answer (count_ready []) pods

-- The loop over the stored instances, which takes each out of the counts.
unfoldable pub readiness_differs : List (String × ℕ) → List InstanceStatus → Bool
readiness_differs counts [] = not (is_empty counts)
readiness_differs counts (status ∷ rest) =
    let skipped = readiness_differs counts rest in
    let later = readiness_differs (erase status.instance_name counts) rest in
    if status.instance_name == ""
    then skipped
    else if not (ready_count counts status.instance_name =? status.ready_replicas)
    then true
    else later

unfoldable pub pod_readiness_changed : Answer (List Pod) → PgBouncerAurora → Answer Bool
pod_readiness_changed pods resource =
    map_answer (λ counts. readiness_differs counts resource.status.instances)
      (ready_pod_counts pods)

-- The health, whether the monitor ran, whether the health is the stored one, and the error of the monitor.
pub record Monitored : Type 0 where
  pub health : List (String × HealthStatus)
  pub ran : Bool
  pub cached : Bool
  pub monitor_err : String

abbrev pub stored_health : PgBouncerAurora → String → Monitored
stored_health resource monitor_err = record {
  health = health_from_status resource.status.instances;
  ran = false;
  cached = true;
  monitor_err = monitor_err;
}

-- An error of the monitor is noted, and the stored health used.
abbrev pub monitored : PgBouncerAurora → Answer (List (String × HealthStatus)) → Monitored
monitored resource (ok health) = record {
  health = health;
  ran = true;
  cached = false;
  monitor_err = "";
}
monitored resource (failed error) = stored_health resource error

abbrev pub Check : Type 0
Check = PgBouncerAurora → List InstanceObservation → Answer (List (String × HealthStatus))

abbrev pub monitor_if : Check → PgBouncerAurora → DiscoveryResult → Bool → Monitored
monitor_if check resource discovery runs =
    let answer = check resource (active_discovery_instances resource discovery.instances) in
    if runs then monitored resource answer else stored_health resource ""

abbrev pub monitor_runs : PgBouncerAurora → DiscoveryResult → Bool → ℕ → Bool
monitor_runs resource discovery discovery_ran now =
    monitor_due resource now
    || topology_changed discovery.instances resource.status.last_known_topology
    || (discovery_ran && is_empty resource.status.instances)

abbrev pub health_with :
    Check → Answer (List Pod) → PgBouncerAurora → DiscoveryResult → Bool → ℕ → Answer Monitored
health_with check pods resource discovery discovery_ran now =
    if monitor_runs resource discovery discovery_ran now
    then ok (monitor_if check resource discovery true)
    else map_answer (monitor_if check resource discovery) (pod_readiness_changed pods resource)

unfoldable pub health_for :
    Option Check
    → Answer (List Pod)
    → PgBouncerAurora
    → DiscoveryResult
    → Bool
    → ℕ
    → Answer Monitored
health_for none pods resource discovery discovery_ran now =
    if not discovery.trusted
    then ok (record { health = []; ran = false; cached = false; monitor_err = "" })
    else ok (stored_health resource "")
health_for (some check) pods resource discovery discovery_ran now =
    if not discovery.trusted
    then ok (record { health = []; ran = false; cached = false; monitor_err = "" })
    else health_with check pods resource discovery discovery_ran now
