-- ===== src/Samples.antt =====
-- Concrete resources and observations for the tests.
use pgbouncer_aurora_operato.Base.{String, Bool, true, false, none, some, List, [], ◌∷◌}
use pgbouncer_aurora_operato.Api.{
  PgBouncerAurora, DiscoveryEndpointSpec, PgBouncerConfigSpec, InstanceOverrideSpec,
  ServiceRoleSpec, PgBouncerAuroraSpec, Role, role_writer, role_reader, InstanceTopologyStatus,
  RoleServiceSummaryStatus, InstanceStatus, Condition, condition_true, PgBouncerAuroraStatus,
}
use pgbouncer_aurora_operato.Domain.{InstanceObservation, HealthStatus}
use pgbouncer_aurora_operato.Planner.{Input}

abbrev pub empty_config : PgBouncerConfigSpec
empty_config = record { pgbouncer = []; databases = []; users = []; peers = [] }

abbrev pub no_endpoint : DiscoveryEndpointSpec
no_endpoint = record { host = ""; port = 0 }

abbrev pub empty_role_service : ServiceRoleSpec
empty_role_service = record { name = ""; type = ""; annotations = [] }

-- Two overrides: `db-3` is switched off and `db-2` has three replicas.
abbrev pub sample_overrides : List InstanceOverrideSpec
sample_overrides =
    record { name = "db-3"; enabled = some false; replicas = 0; config = empty_config }
    ∷ record { name = "db-2"; enabled = none; replicas = 3; config = empty_config }
    ∷ []

abbrev pub sample_spec : PgBouncerAuroraSpec
sample_spec = record {
  discovery = record {
    cluster_name = "aurora";
    domain_name = "abc.rds.amazonaws.com";
    port = 0;
    cluster_endpoints = record { writer = no_endpoint; reader = no_endpoint };
    database = "";
    ssl_mode = "require";
    auth_secret_ref = "auth";
    interval = 0;
    timeout = 0;
    failure_threshold = 0;
  };
  monitor = record { interval = 0; timeout = 0; failure_threshold = 0; recovery_threshold = 0 };
  pgbouncer = record {
    image = "pgbouncer";
    replicas = none;
    config = empty_config;
    instance_overrides = sample_overrides;
    auth_file_secret_ref = "userlist";
    labels = [];
    annotations = [];
    node_selector = [];
    required_node_affinity = none;
    topology_spread_constraints = [];
  };
  services = record {
    writer = empty_role_service;
    reader = empty_role_service;
    per_instances = record { type = ""; annotations = [] };
  };
  topology_policy = record {
    remove_after_missing_count = 0;
    removed_instance_retention = 0;
    writer_change_connection_handling = "";
    reader_empty_fallback = record { enabled = none };
    zone_aware = record {
      enabled = none;
      enforcement = "";
      topology_key = "";
      conflict_policy = "";
    };
  };
}

abbrev pub no_summary : String → RoleServiceSummaryStatus
no_summary role = record {
  service_name = "";
  desired_role = role;
  total_candidates = 0;
  healthy = 0;
  unhealthy = 0;
  members = 0;
  ready_members = 0;
  fallback_from_writer = false;
}

abbrev pub sample_instance : String → Role → Bool → InstanceStatus
sample_instance name role healthy = record {
  instance_name = name;
  endpoint = "";
  port = 5432;
  role = role;
  availability_zone = "";
  dbi_resource_id = "";
  disabled = false;
  healthy = healthy;
  desired_replicas = 1;
  ready_replicas = 1;
  consecutive_failures = 0;
  consecutive_successes = 1;
  reason = "healthy";
}

abbrev pub sample_topology : String → Role → InstanceTopologyStatus
sample_topology name role = record {
  instance_name = name;
  endpoint = "";
  port = 5432;
  role = role;
  availability_zone = "";
  dbi_resource_id = "";
}

abbrev pub discovery_condition : String → Condition
discovery_condition status = record {
  type = "DiscoveryTrusted";
  status = status;
  reason = "";
  message = "";
  last_transition_time = 0;
}

-- `db-1` was the writer, `db-2` and `db-4` were readers; `db-4` has been missing once.
abbrev pub sample_status : PgBouncerAuroraStatus
sample_status = record {
  observed_generation = 1;
  topology_hash = "";
  membership_hash = "";
  consecutive_discovery_failures = 0;
  last_discovery_time = some 1000000000;
  last_monitor_time = some 1000000000;
  last_applied_time = some 1000000000;
  last_known_topology =
      sample_topology "db-1" role_writer ∷ sample_topology "db-2" role_reader ∷ [];
  last_applied_membership = record { writer = "db-1" ∷ []; reader = "db-2" ∷ "db-4" ∷ [] };
  service_summary = record { writer = no_summary role_writer; reader = no_summary role_reader };
  missing_instances =
      record {
        instance_name = "db-4";
        missing_count = 1;
        first_missing_time = some 900000000;
        last_missing_time = some 900000000;
      }
      ∷ [];
  instances =
      sample_instance "db-1" role_writer true ∷ sample_instance "db-2" role_reader true ∷ [];
  conditions = discovery_condition condition_true ∷ [];
}

abbrev pub sample_resource : PgBouncerAurora
sample_resource = record {
  name = "pool";
  namespace = "default";
  generation = 1;
  spec = sample_spec;
  status = sample_status;
}

abbrev pub sample_observation : String → Role → InstanceObservation
sample_observation name role = record {
  name = name;
  endpoint = "";
  port = 5432;
  role = role;
  availability_zone = "";
  dbi_resource_id = "";
}

abbrev pub sample_discovered : List InstanceObservation
sample_discovered =
    sample_observation "db-2" role_reader
    ∷ sample_observation "db-1" role_writer
    ∷ sample_observation "db-3" role_reader
    ∷ []

abbrev pub sample_health : List (String × HealthStatus)
sample_health =
    ("db-1", record { healthy = true; reason = ""; ready_replicas = 1 })
    ∷ ("db-2", record { healthy = false; reason = "pod not ready"; ready_replicas = 0 })
    ∷ []

abbrev pub sample_input : Input
sample_input = record {
  resource = sample_resource;
  discovery_trusted = true;
  discovered = sample_discovered;
  health = sample_health;
  cached_health = false;
  missing_instances = sample_status.missing_instances;
}
