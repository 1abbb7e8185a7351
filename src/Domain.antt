-- ===== src/Domain.antt =====
-- internal/domain/topology.go: what discovery observes and what the planner plans.
use pgbouncer_aurora_operato.Base.{ℕ, String, List, Bool}
use pgbouncer_aurora_operato.Api.{Role}

pub record InstanceObservation : Type 0 where
  pub name : String
  pub endpoint : String
  pub port : ℕ
  pub role : Role
  pub availability_zone : String
  pub dbi_resource_id : String

pub record DiscoveryResult : Type 0 where
  pub trusted : Bool
  pub instances : List InstanceObservation
  pub reason : String

pub record HealthStatus : Type 0 where
  pub healthy : Bool
  pub reason : String
  pub ready_replicas : ℕ

pub record InstancePlan : Type 0 where
  pub observation : InstanceObservation
  pub open observation use {name, endpoint, port, role, availability_zone, dbi_resource_id}
  pub healthy : Bool
  pub disabled : Bool
  pub reason : String
  pub replicas : ℕ
  pub ready_replicas : ℕ
  pub consecutive_failures : ℕ
  pub consecutive_successes : ℕ

pub record ServiceMembership : Type 0 where
  pub writer : List String
  pub reader : List String
