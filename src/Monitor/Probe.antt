-- ===== src/Monitor/Probe.antt =====
-- internal/monitor/probe.go: the probe of one instance. The database connection is an argument: `open` makes
-- one, and `query` answers `pg_is_in_recovery()` and `transaction_read_only`.
use text.Mathlib.Text.{starts_with}
use pgbouncer_aurora_operato.Base.{
  if◌then◌else◌, any, int32_pos, replace_all, contains_text, Answer, ok, failed, ◌>>=◌, ℕ, String,
  ◌^^◌, Bool, true, false, not, List, [], ◌∷◌, ◌==◌,
}
use pgbouncer_aurora_operato.Api.{PgBouncerAurora, Role, role_writer, role_reader}
use pgbouncer_aurora_operato.Domain.{InstanceObservation, HealthStatus}
use pgbouncer_aurora_operato.Monitor.Secrets.{Credentials, ConnInfo}

-- `defaultPort` and `defaultString`.
unfoldable pub default_port_of : List ℕ → ℕ
default_port_of [] = 5432
default_port_of (value ∷ values) =
    let later = default_port_of values in if int32_pos value then value else later

unfoldable pub default_string : List String → String
default_string [] = ""
default_string (value ∷ values) =
    let later = default_string values in if not (value == "") then value else later

unfoldable pub role_of_settings : Bool × Bool → Answer Role
role_of_settings (in_recovery, transaction_read_only) =
    if in_recovery
    then (if not transaction_read_only
        then failed "role sanity mismatch: pg_is_in_recovery=true transaction_read_only=false"
        else ok role_reader)
    else if transaction_read_only
    then failed "role sanity mismatch: pg_is_in_recovery=false transaction_read_only=true"
    else ok role_writer

unfoldable pub role_probe : Answer (Bool × Bool) → Answer Role
role_probe settings = settings >>= role_of_settings

unfoldable pub redact_credential_value : String → String → String
redact_credential_value message secret =
    if secret == "" then message else replace_all message secret "[redacted]"

abbrev pub configuration_patterns : List String
configuration_patterns =
    "password authentication failed" ∷ "authentication failed" ∷ "no pg_hba.conf entry"
    ∷ "certificate" ∷ "tls" ∷ "ssl" ∷ []

unfoldable pub monitor_probe_configuration_error : (String → String) → String → Bool
monitor_probe_configuration_error to_lower error =
    any (λ pattern. contains_text (to_lower error) pattern) configuration_patterns

unfoldable pub monitor_status_is_configuration_failure : HealthStatus → Bool
monitor_status_is_configuration_failure status =
    starts_with status.reason "monitor configuration failed:"

abbrev pub expected_role : InstanceObservation → Role → Answer {0} Unit
expected_role instance_observation role =
    if not (role == instance_observation.role)
    then failed ("role mismatch: discovery=" ^^ instance_observation.role ^^ " monitor=" ^^ role)
    else ok tt

abbrev pub conn_info : PgBouncerAurora → Credentials → InstanceObservation → ConnInfo
conn_info resource creds instance_observation = record {
  host = instance_observation.endpoint;
  port = default_port_of (instance_observation.port ∷ resource.spec.discovery.port ∷ []);
  database = default_string (resource.spec.discovery.database ∷ "postgres" ∷ []);
  username = creds.username;
  password = creds.password;
  ssl_mode = resource.spec.discovery.ssl_mode;
}

module _ {Db : Type 0} (open_db : ConnInfo → Answer Db) (query : Db → Answer (Bool × Bool)) where
  unfoldable pub direct_probe :
      PgBouncerAurora → Credentials → InstanceObservation → Answer {0} Unit
  direct_probe resource creds instance_observation = do
    db ← open_db (conn_info resource creds instance_observation)
    role ← role_probe (query db)
    expected_role instance_observation role

  abbrev pub status_of_probe : (String → String) → Credentials → Answer {0} Unit → HealthStatus
  status_of_probe to_lower creds (ok done) = record {
    healthy = true;
    reason = "healthy";
    ready_replicas = 0;
  }
  status_of_probe to_lower creds (failed error) = record {
    healthy = false;
    reason =
        (if monitor_probe_configuration_error to_lower error
          then "monitor configuration failed: "
          else "direct db probe failed: ")
        ^^ redact_credential_value error creds.password;
    ready_replicas = 0;
  }

  unfoldable pub check_instance :
      (String → String) → PgBouncerAurora → Credentials → InstanceObservation → HealthStatus
  check_instance to_lower resource creds instance_observation =
      status_of_probe to_lower creds (direct_probe resource creds instance_observation)
