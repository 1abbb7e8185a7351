-- ===== src/Controller.antt =====
-- internal/controller/reconciler.go
pub mod Due
pub mod Throttle
pub mod Cache
pub mod Labels
pub mod Pods
pub mod Hysteresis
pub mod Missing
pub mod Removal
pub mod Membership
pub mod Conditions
pub mod Summary
pub mod Restart
pub mod Stored
pub mod Zones
pub mod Reported
pub mod Health
pub mod Apply
pub mod Copy
pub mod Drift
mod Tests
