-- ===== src/Discovery/Rows.antt =====
-- internal/discovery/aurora.go: rows of aurora_replica_status, and what one row becomes.
use pgbouncer_aurora_operato.Base.{
  ◌=?◌, if◌then◌else◌, int32_pos, trim_space, equal_fold, replace_all, lookup, insert, ℕ, String,
  ◌^^◌, not, Option, none, some, List, [], ◌∷◌, ◌==◌,
}
use pgbouncer_aurora_operato.Api.{
  PgBouncerAurora, Role, role_writer, role_reader, InstanceTopologyStatus,
}

pub record AuroraReplicaStatusRow : Type 0 where
  pub server_id : String
  pub session_id : String

pub record InstanceMetadata : Type 0 where
  pub instance_name : String
  pub availability_zone : String
  pub dbi_resource_id : String
  pub status : String

-- `metadata[name]` where the name is missing.
abbrev pub no_metadata : InstanceMetadata
no_metadata = record {
  instance_name = "";
  availability_zone = "";
  dbi_resource_id = "";
  status = "";
}

abbrev pub master_session_id : String
master_session_id = "MASTER_SESSION_ID"

unfoldable pub role_from_session_id : String → Role
role_from_session_id session_id =
    if equal_fold (trim_space session_id) master_session_id then role_writer else role_reader

-- The templates' variables are replaced one after the other, in the order of the list; Go takes
-- them in any order.
unfoldable pub render_aurora_endpoint : String → List (String × String) → String
render_aurora_endpoint out [] = out
render_aurora_endpoint out ((key, value) ∷ values) =
    render_aurora_endpoint (replace_all out ("{" ^^ key ^^ "}") (trim_space value)) values

unfoldable pub aurora_instance_endpoint : String → String → String
aurora_instance_endpoint instance_name domain_name =
    render_aurora_endpoint "{instanceName}.{domainName}"
      (("instanceName", instance_name) ∷ ("domainName", domain_name) ∷ [])

unfoldable pub aurora_writer_endpoint : String → String → String
aurora_writer_endpoint cluster_name domain_name =
    render_aurora_endpoint "{clusterName}.cluster-{domainName}"
      (("clusterName", cluster_name) ∷ ("domainName", domain_name) ∷ [])

unfoldable pub aurora_reader_endpoint : String → String → String
aurora_reader_endpoint cluster_name domain_name =
    render_aurora_endpoint "{clusterName}.cluster-ro-{domainName}"
      (("clusterName", cluster_name) ∷ ("domainName", domain_name) ∷ [])

-- The stored topology by trimmed name; a later entry of one name replaces an earlier one.
unfoldable pub previous_topology_from :
    List (String × InstanceTopologyStatus)
    → List InstanceTopologyStatus
    → List (String × InstanceTopologyStatus)
previous_topology_from out [] = out
previous_topology_from out (instance_status ∷ rest) =
    let name = trim_space instance_status.instance_name in
    previous_topology_from (if name == "" then out else insert name instance_status out) rest

unfoldable pub previous_topology : PgBouncerAurora → List (String × InstanceTopologyStatus)
previous_topology resource = previous_topology_from [] resource.status.last_known_topology

abbrev pub stored_text : (InstanceTopologyStatus → String) → Option InstanceTopologyStatus → String
stored_text field none = ""
stored_text field (some item) = trim_space (field item)

unfoldable pub endpoint_for_instance :
    PgBouncerAurora → String → List (String × InstanceTopologyStatus) → String
endpoint_for_instance resource name previous =
    if not (trim_space resource.spec.discovery.domain_name == "")
    then aurora_instance_endpoint name resource.spec.discovery.domain_name
    else stored_text (λ item. item.endpoint) (lookup name previous)

unfoldable pub availability_zone_for_instance :
    String → InstanceMetadata → List (String × InstanceTopologyStatus) → String
availability_zone_for_instance name meta previous =
    if not (trim_space meta.availability_zone == "")
    then trim_space meta.availability_zone
    else stored_text (λ item. item.availability_zone) (lookup name previous)

unfoldable pub dbi_resource_id_for_instance :
    String → InstanceMetadata → List (String × InstanceTopologyStatus) → String
dbi_resource_id_for_instance name meta previous =
    if not (trim_space meta.dbi_resource_id == "")
    then trim_space meta.dbi_resource_id
    else stored_text (λ item. item.dbi_resource_id) (lookup name previous)

abbrev pub stored_port : Option InstanceTopologyStatus → ℕ
stored_port none = 0
stored_port (some item) = if int32_pos item.port then item.port else 0

unfoldable pub port_for_instance :
    PgBouncerAurora → String → List (String × InstanceTopologyStatus) → ℕ
port_for_instance resource name previous =
    if int32_pos resource.spec.discovery.port
    then resource.spec.discovery.port
    else stored_port (lookup name previous)

abbrev pub default_port : ℕ → ℕ
default_port port = if port =? 0 then 5432 else port

abbrev pub metadata_of : Option InstanceMetadata → InstanceMetadata
metadata_of none = no_metadata
metadata_of (some meta) = meta
