-- ===== src/Api/Spec.antt =====
-- api/v1alpha1/pgbounceraurora_types.go: the spec. Durations are `int64` and counts `int32` bit
-- patterns; a pointer is an option; the other Kubernetes pod and service types are left out.
use pgbouncer_aurora_operato.Base.{ℕ, String, List, Option, Bool}

pub record DiscoveryEndpointSpec : Type 0 where
  pub host : String
  pub port : ℕ

pub record DiscoveryClusterEndpointsSpec : Type 0 where
  pub writer : DiscoveryEndpointSpec
  pub reader : DiscoveryEndpointSpec

pub record DiscoverySpec : Type 0 where
  pub cluster_name : String
  pub domain_name : String
  pub port : ℕ
  pub cluster_endpoints : DiscoveryClusterEndpointsSpec
  pub database : String
  pub ssl_mode : String
  pub auth_secret_ref : String
  pub interval : ℕ
  pub timeout : ℕ
  pub failure_threshold : ℕ

pub record MonitorSpec : Type 0 where
  pub interval : ℕ
  pub timeout : ℕ
  pub failure_threshold : ℕ
  pub recovery_threshold : ℕ

pub record PgBouncerConfigSpec : Type 0 where
  pub pgbouncer : List (String × String)
  pub databases : List (String × List (String × String))
  pub users : List (String × List (String × String))
  pub peers : List (String × List (String × String))

pub record InstanceOverrideSpec : Type 0 where
  pub name : String
  pub enabled : Option Bool
  pub replicas : ℕ
  pub config : PgBouncerConfigSpec

-- `NodeSelectorRequirement` of Kubernetes, for labels and for fields.
pub record NodeSelectorRequirement : Type 0 where
  pub key : String
  pub operator : String
  pub values : List String

pub record NodeSelectorTerm : Type 0 where
  pub match_expressions : List NodeSelectorRequirement
  pub match_fields : List NodeSelectorRequirement

-- `required_node_affinity` holds the terms of the required node affinity, if the affinity has one, and
-- `topology_spread_constraints` the keys of the constraints.
pub record PgBouncerSpec : Type 0 where
  pub image : String
  pub replicas : Option ℕ
  pub config : PgBouncerConfigSpec
  pub instance_overrides : List InstanceOverrideSpec
  pub auth_file_secret_ref : String
  pub labels : List (String × String)
  pub annotations : List (String × String)
  pub node_selector : List (String × String)
  pub required_node_affinity : Option (List NodeSelectorTerm)
  pub topology_spread_constraints : List String

pub record ServiceRoleSpec : Type 0 where
  pub name : String
  pub type : String
  pub annotations : List (String × String)

pub record PerInstanceServiceSpec : Type 0 where
  pub type : String
  pub annotations : List (String × String)

-- `ReaderServiceSpec` holds a `ServiceRoleSpec` and nothing else.
pub record ServicesSpec : Type 0 where
  pub writer : ServiceRoleSpec
  pub reader : ServiceRoleSpec
  pub per_instances : PerInstanceServiceSpec

pub record ReaderEmptyFallbackSpec : Type 0 where
  pub enabled : Option Bool

pub record ZoneAwareSpec : Type 0 where
  pub enabled : Option Bool
  pub enforcement : String
  pub topology_key : String
  pub conflict_policy : String

pub record TopologyPolicySpec : Type 0 where
  pub remove_after_missing_count : ℕ
  pub removed_instance_retention : ℕ
  pub writer_change_connection_handling : String
  pub reader_empty_fallback : ReaderEmptyFallbackSpec
  pub zone_aware : ZoneAwareSpec

pub record PgBouncerAuroraSpec : Type 0 where
  pub discovery : DiscoverySpec
  pub monitor : MonitorSpec
  pub pgbouncer : PgBouncerSpec
  pub services : ServicesSpec
  pub topology_policy : TopologyPolicySpec

-- `WriterChangeConnectionHandling`.
abbrev pub keep_existing : String
keep_existing = "KeepExisting"

abbrev pub restart_writers : String
restart_writers = "RestartWriters"

abbrev pub restart_all : String
restart_all = "RestartAll"
