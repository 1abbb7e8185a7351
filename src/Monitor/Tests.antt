-- ===== src/Monitor/Tests.antt =====
-- The theorems about the health monitor, at concrete inputs.
use pgbouncer_aurora_operato.Base.{
  All, replace_all, lookup, Answer, ok, ◌*◌, ◌≤◌, String, ◌≡◌, refl, inl, Bool, true, false, some,
  List, [], ◌∷◌, arith,
}
use pgbouncer_aurora_operato.Api.{role_writer, role_reader}
use pgbouncer_aurora_operato.Domain.{InstanceObservation, HealthStatus}
use pgbouncer_aurora_operato.Kubernetes.{Pod}
use pgbouncer_aurora_operato.Samples.{sample_resource, sample_observation, sample_discovered}
use pgbouncer_aurora_operato.Planner.{override_disables, instance_disabled}
use pgbouncer_aurora_operato.Controller.Due.{second}
use pgbouncer_aurora_operato.Controller.Labels.{label_instance}
use pgbouncer_aurora_operato.Monitor.{
  role_of_settings, role_probe, redact_credential_value, monitor_status_is_configuration_failure,
  direct_probe, check_instance, workers_per_cr, job_timeout, job_timeout-bounds, is_pod_ready,
  count_ready_pods, enabled_instances, ready_instances, check, Credentials, ConnInfo,
}
use pgbouncer_aurora_operato.Monitor.Healthy.{HasAnswered, check_instance-HasAnswered}
use pgbouncer_aurora_operato.Monitor.Collected.{delivered, expected_health, check-any_order}

abbrev sample_creds : Credentials
sample_creds = record { username = "app"; password = "secret" }

abbrev sample_probe : InstanceObservation → HealthStatus
sample_probe o = record { healthy = true; reason = "healthy"; ready_replicas = 0 }

abbrev ready_pod : Pod
ready_pod = record {
  labels = (label_instance, "db-1") ∷ [];
  deleting = false;
  conditions = ("Ready", "True") ∷ [];
}

abbrev order : List InstanceObservation
order = sample_observation "db-1" role_writer ∷ []

-- `db-1` has a ready pod, `db-2` has none, and `db-3` is switched off.
check-any_order_example :
    (health : List (String × HealthStatus)) × (check
        (ok (ready_pod ∷ []))
        (ok sample_creds)
        (λ counts creds ready. delivered sample_probe counts order)
        sample_resource
        sample_discovered
      ≡ ok health)
    × All
        (λ o.
          lookup o.name health
          ≡ some (
              expected_health sample_probe
                (ready_pod ∷ [])
                sample_creds
                sample_resource
                sample_discovered
                order
                o))
        (enabled_instances sample_resource sample_discovered)
unfolding check ready_instances enabled_instances instance_disabled override_disables
    count_ready_pods is_pod_ready monitor_status_is_configuration_failure
check-any_order_example =
    check-any_order sample_probe (ready_pod ∷ []) sample_creds sample_resource sample_discovered
      order (inl refl, tt) (inl refl, tt) refl refl

job_timeout-bounds_example :
    (1 ≤ workers_per_cr 0 3)
    × (workers_per_cr 0 3 ≤ 3)
    × (8 * second ≤ job_timeout 0 0 sample_resource 3)
    × (job_timeout 0 0 sample_resource 3 ≤ 30 * second)
job_timeout-bounds_example = job_timeout-bounds 0 sample_resource 3 (omega arith)

abbrev open_sample : ConnInfo → Answer String
open_sample info = ok info.host

abbrev query_sample : String → Answer (Bool × Bool)
query_sample connection = ok (true, true)

-- An instance in recovery that was discovered as a reader.
check_instance-HasAnswered_example :
    HasAnswered open_sample query_sample
      (λ s. s)
      sample_resource
      sample_creds
      (sample_observation "db-2" role_reader)
unfolding check_instance direct_probe role_probe role_of_settings
check_instance-HasAnswered_example =
    check_instance-HasAnswered open_sample query_sample (λ s. s) sample_resource sample_creds
      (sample_observation "db-2" role_reader) refl

redacted : redact_credential_value "bad secret for app" "secret" ≡ "bad [redacted] for app"
unfolding redact_credential_value replace_all
redacted = refl
