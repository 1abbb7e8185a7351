-- ===== src/Api.antt =====
-- api/v1alpha1/pgbounceraurora_types.go: the PgBouncerAurora resource.
mod Spec
mod Status
pub use Spec.*
pub use Status.*
use pgbouncer_aurora_operato.Base.{ℕ, String}

-- The fields of `ObjectMeta` that the operator reads stand beside the spec and the status.
pub record PgBouncerAurora : Type 0 where
  pub name : String
  pub namespace : String
  pub generation : ℕ
  pub spec : PgBouncerAuroraSpec
  pub status : PgBouncerAuroraStatus
