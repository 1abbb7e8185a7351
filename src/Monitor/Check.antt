-- ===== src/Monitor/Check.antt =====
-- internal/monitor/probe.go: `Check`, from the pods to the results that the workers send. The order of the
-- results, and whether and when the job is canceled, is an argument.
use pgbouncer_aurora_operato.Base.{
  ◌=?◌, if◌then◌else◌, length, is_empty, filter, count, any, int32_mod, sprint_int32, lookup,
  insert, Answer, ok, failed, map_answer, ◌>>=◌, ℕ, suc, ◌%◌, String, ◌^^◌, Bool, false, not, ◌&&◌,
  none, some, List, [], ◌∷◌, map, ◌==◌,
}
use pgbouncer_aurora_operato.Api.{PgBouncerAurora}
use pgbouncer_aurora_operato.Domain.{InstanceObservation, HealthStatus}
use pgbouncer_aurora_operato.Kubernetes.{Pod, pod_label}
use pgbouncer_aurora_operato.Planner.{instance_disabled}
use pgbouncer_aurora_operato.Controller.Labels.{label_instance}
use pgbouncer_aurora_operato.Monitor.Secrets.{Credentials, Secret, credentials_from_secret}
use pgbouncer_aurora_operato.Monitor.Probe.{monitor_status_is_configuration_failure}

unfoldable pub is_pod_ready : Pod → Bool
is_pod_ready pod =
    if pod.deleting
    then false
    else any (λ condition. condition.0 == "Ready" && condition.1 == "True") pod.conditions

abbrev pub ready_pods : List (String × ℕ) → String → ℕ
ready_pods counts name = elim (lookup name counts) [ none ↦ 0 | some count ↦ count ]

-- The loop over the pods that the API lists.
unfoldable pub count_ready_pods : List (String × ℕ) → List Pod → List (String × ℕ)
count_ready_pods counts [] = counts
count_ready_pods counts (pod ∷ pods) =
    let name = pod_label pod label_instance in
    count_ready_pods
      (if is_pod_ready pod then insert name (suc (ready_pods counts name)) counts else counts) pods

unfoldable pub ready_pods_by_instance : Answer (List Pod) → Answer (List (String × ℕ))
ready_pods_by_instance pods = map_answer (count_ready_pods []) pods

unfoldable pub enabled_instances :
    PgBouncerAurora → List InstanceObservation → List InstanceObservation
enabled_instances resource =
    filter (λ observation. not (instance_disabled resource.spec.pgbouncer observation.name))

-- `credentials`; the client is not nil.
unfoldable pub credentials : (String → Answer Secret) → PgBouncerAurora → Answer Credentials
credentials get_secret resource =
    if resource.spec.discovery.auth_secret_ref == ""
    then failed "spec.discovery.authSecretRef.name is empty"
    else get_secret resource.spec.discovery.auth_secret_ref >>= credentials_from_secret

pub record ProbeResult : Type 0 where
  pub name : String
  pub outcome : Answer HealthStatus

-- What a worker sends for an instance, if the job is not canceled.
unfoldable pub probe_result :
    (InstanceObservation → HealthStatus) → List (String × ℕ) → InstanceObservation → ProbeResult
probe_result probe counts instance_observation =
    let status = probe instance_observation in
    record {
      name = instance_observation.name;
      outcome =
          if monitor_status_is_configuration_failure status
          then failed (instance_observation.name ^^ ": " ^^ status.reason)
          else ok (record status {
            ready_replicas = ready_pods counts instance_observation.name % int32_mod;
          });
    }

-- What the last loop sees: a result, or the end of the job's context.
pub data Event : Type 0 where
  arrived : ProbeResult → Event
  canceled : String → Event

abbrev pub without : String → List String → List String
without name names = filter (λ other. not (other == name)) names

-- The last loop, on the events until the channel is closed.
unfoldable pub collect :
    List String → List (String × HealthStatus) → List Event → Answer (List (String × HealthStatus))
collect remaining out [] =
    if is_empty remaining
    then ok out
    else failed (
        "monitor job finished before "
        ^^ sprint_int32 (length remaining)
        ^^ " probe result(s) were collected")
collect remaining out (canceled error ∷ events) =
    if is_empty remaining then ok out else failed ("monitor job canceled: " ^^ error)
collect remaining out (arrived result ∷ events) =
    let later = result.outcome >>= λ status.
    collect (without result.name remaining) (insert result.name status out) events in
    if is_empty remaining then ok out else later

abbrev pub not_ready : HealthStatus
not_ready = record { healthy = false; reason = "pod not ready"; ready_replicas = 0 }

-- The first loop: the results of the instances without a ready pod, and the other instances.
unfoldable pub not_ready_results :
    List (String × ℕ)
    → List (String × HealthStatus)
    → List InstanceObservation
    → List (String × HealthStatus)
not_ready_results counts out [] = out
not_ready_results counts out (instance_observation ∷ rest) =
    not_ready_results counts
      (if ready_pods counts instance_observation.name =? 0
        then insert instance_observation.name not_ready out
        else out)
      rest

unfoldable pub ready_instances :
    List (String × ℕ) → List InstanceObservation → List InstanceObservation
ready_instances counts = filter (λ observation. not (ready_pods counts observation.name =? 0))

-- The map `remaining` is read by its keys only.
unfoldable pub check :
    Answer (List Pod)
    → Answer Credentials
    → (List (String × ℕ) → Credentials → List InstanceObservation → List Event)
    → PgBouncerAurora
    → List InstanceObservation
    → Answer (List (String × HealthStatus))
check pods creds events resource instances =
    let enabled = enabled_instances resource instances in
    ready_pods_by_instance pods >>= λ counts.
    let out = not_ready_results counts [] enabled in
    let ready = ready_instances counts enabled in
    if is_empty ready
    then ok out
    else creds >>= λ found. collect (map (λ o. o.name) ready) out (events counts found ready)
