-- ===== src/Monitor.antt =====
-- internal/monitor/probe.go and internal/postgres/connect.go: the health of the instances.
mod Probe
mod Timing
mod Check
mod Secrets
pub mod Healthy
pub mod Collected
mod Tests
unfoldable pub use Probe.*
unfoldable pub use Timing.*
unfoldable pub use Check.*
unfoldable pub use Secrets.*
