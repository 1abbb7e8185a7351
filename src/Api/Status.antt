-- ===== src/Api/Status.antt =====
-- api/v1alpha1/pgbounceraurora_types.go: the status. A time is a number of nanoseconds since a fixed
-- origin, and a pointer to one an option.
use pgbouncer_aurora_operato.Base.{ℕ, String, List, Option, Bool}

-- `type Role string`: a stored role may be any text.
abbrev pub Role : Type 0
Role = String

abbrev pub role_writer : Role
role_writer = "writer"

abbrev pub role_reader : Role
role_reader = "reader"

pub record InstanceTopologyStatus : Type 0 where
  pub instance_name : String
  pub endpoint : String
  pub port : ℕ
  pub role : Role
  pub availability_zone : String
  pub dbi_resource_id : String

pub record MembershipStatus : Type 0 where
  pub writer : List String
  pub reader : List String

pub record MissingInstanceStatus : Type 0 where
  pub instance_name : String
  pub missing_count : ℕ
  pub first_missing_time : Option ℕ
  pub last_missing_time : Option ℕ

pub record RoleServiceSummaryStatus : Type 0 where
  pub service_name : String
  pub desired_role : Role
  pub total_candidates : ℕ
  pub healthy : ℕ
  pub unhealthy : ℕ
  pub members : ℕ
  pub ready_members : ℕ
  pub fallback_from_writer : Bool

pub record ServiceSummaryStatus : Type 0 where
  pub writer : RoleServiceSummaryStatus
  pub reader : RoleServiceSummaryStatus

pub record InstanceStatus : Type 0 where
  pub instance_name : String
  pub endpoint : String
  pub port : ℕ
  pub role : Role
  pub availability_zone : String
  pub dbi_resource_id : String
  pub disabled : Bool
  pub healthy : Bool
  pub desired_replicas : ℕ
  pub ready_replicas : ℕ
  pub consecutive_failures : ℕ
  pub consecutive_successes : ℕ
  pub reason : String

-- `metav1.Condition`; the status is the text `True`, `False` or `Unknown`.
pub record Condition : Type 0 where
  pub type : String
  pub status : String
  pub reason : String
  pub message : String
  pub last_transition_time : ℕ

abbrev pub condition_true : String
condition_true = "True"

abbrev pub condition_false : String
condition_false = "False"

pub record PgBouncerAuroraStatus : Type 0 where
  pub observed_generation : ℕ
  pub topology_hash : String
  pub membership_hash : String
  pub consecutive_discovery_failures : ℕ
  pub last_discovery_time : Option ℕ
  pub last_monitor_time : Option ℕ
  pub last_applied_time : Option ℕ
  pub last_known_topology : List InstanceTopologyStatus
  pub last_applied_membership : MembershipStatus
  pub service_summary : ServiceSummaryStatus
  pub missing_instances : List MissingInstanceStatus
  pub instances : List InstanceStatus
  pub conditions : List Condition
