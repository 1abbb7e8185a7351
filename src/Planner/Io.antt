-- ===== src/Planner/Io.antt =====
-- internal/planner/planner.go: what a planning round takes and gives. The resource is not nil.
use pgbouncer_aurora_operato.Base.{String, List, Bool}
use pgbouncer_aurora_operato.Api.{PgBouncerAurora, MissingInstanceStatus}
use pgbouncer_aurora_operato.Domain.{
  InstanceObservation, InstancePlan, HealthStatus, ServiceMembership,
}

pub record Input : Type 0 where
  pub resource : PgBouncerAurora
  pub discovery_trusted : Bool
  pub discovered : List InstanceObservation
  pub health : List (String × HealthStatus)
  pub cached_health : Bool
  pub missing_instances : List MissingInstanceStatus

pub record Output : Type 0 where
  pub instances : List InstancePlan
  pub membership : ServiceMembership
  pub frozen : Bool
  pub reasons : List String
  pub reader_fallback_suppressed : Bool
  pub reader_fallback_suppressed_reason : String
