-- ===== src/Monitor/Healthy.antt =====
-- internal/monitor/probe.go: when an instance counts as healthy.
use pgbouncer_aurora_operato.Base.{
  if◌then◌else◌, Answer, ok, failed, ◌>>=◌, String, ◌≡◌, refl, sym, Bool, true, false, not, ◌==◌,
  eq_iff,
}
use pgbouncer_aurora_operato.Api.{PgBouncerAurora, Role, role_writer, role_reader}
use pgbouncer_aurora_operato.Domain.{InstanceObservation}
use pgbouncer_aurora_operato.Monitor.Secrets.{Credentials, ConnInfo}
use pgbouncer_aurora_operato.Monitor.Probe.{
  role_of_settings, role_probe, expected_role, conn_info, direct_probe, status_of_probe,
  check_instance,
}

abbrev is_ok : Answer {0} Unit → Bool
is_ok (ok done) = true
is_ok (failed error) = false

only_ok :
    (b : Bool) (error : String) → is_ok (if not b then failed error else ok tt) ≡ true → b ≡ true
only_ok true error h = refl
only_ok false error h = cc

expected_role-same :
    (o : InstanceObservation) (role : Role) → is_ok (expected_role o role) ≡ true → o.role ≡ role
expected_role-same o role h = sym ((eq_iff role o.role).0 (only_ok (role == o.role) _ h))

module _ {Db : Type 0} (open_db : ConnInfo → Answer Db) (query : Db → Answer (Bool × Bool))
    (to_lower : String → String) (resource : PgBouncerAurora) (creds : Credentials)
    (instance_observation : InstanceObservation) where
  -- A connection to the instance could be made, and the settings agree with each other and with the role.
  pub record HasAnswered : Type 0 where
    pub db : Db
    pub connected : open_db (conn_info resource creds instance_observation) ≡ ok db
    pub in_recovery : Bool
    pub answered : query db ≡ ok (in_recovery, in_recovery)
    pub role : instance_observation.role ≡ (if in_recovery then role_reader else role_writer)

  healthy-is_ok :
      (answer : Answer {0} Unit)
      → (status_of_probe open_db query to_lower creds answer).healthy ≡ true
      → is_ok answer ≡ true
  healthy-is_ok (ok done) h = refl
  healthy-is_ok (failed error) h = cc

  settings-HasAnswered :
      (db : Db)
      → open_db (conn_info resource creds instance_observation) ≡ ok db
      → (settings : Answer (Bool × Bool)) → query db ≡ settings
      → is_ok (role_probe settings >>= expected_role instance_observation) ≡ true
      → HasAnswered
  unfolding role_probe role_of_settings
  settings-HasAnswered db e (failed error) q h = cc
  settings-HasAnswered db e (ok (true, true)) q h = record {
    db = db;
    connected = e;
    in_recovery = true;
    answered = q;
    role = expected_role-same instance_observation role_reader h;
  }
  settings-HasAnswered db e (ok (true, false)) q h = cc
  settings-HasAnswered db e (ok (false, true)) q h = cc
  settings-HasAnswered db e (ok (false, false)) q h = record {
    db = db;
    connected = e;
    in_recovery = false;
    answered = q;
    role = expected_role-same instance_observation role_writer h;
  }

  connection-HasAnswered :
      (connection : Answer Db)
      → open_db (conn_info resource creds instance_observation) ≡ connection
      → is_ok (connection >>= λ db. role_probe (query db) >>= expected_role instance_observation)
        ≡ true
      → HasAnswered
  connection-HasAnswered (failed error) e h = cc
  connection-HasAnswered (ok db) e h = settings-HasAnswered db e (query db) refl h

  -- An instance counts as healthy only if a connection to it could be made with the credentials, its two
  -- settings agree with each other, and they give the role that was discovered.
  pub check_instance-HasAnswered :
      (check_instance open_db query to_lower resource creds instance_observation).healthy ≡ true
      → HasAnswered
  unfolding check_instance direct_probe
  check_instance-HasAnswered h =
      connection-HasAnswered (open_db (conn_info resource creds instance_observation)) refl
        (healthy-is_ok _ h)
