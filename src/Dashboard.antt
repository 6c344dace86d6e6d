-- ===== src/Dashboard.antt =====
-- internal/dashboard: the deployment of the dashboard that the operator manages.
pub mod Objects
pub mod Config
pub mod Resources
pub mod Apply
pub mod Cluster
pub mod Action
pub mod Deploy
pub mod Cleanup
pub mod Laws
pub mod Reconcile
mod Tests
