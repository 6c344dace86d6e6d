-- ===== src/Controller.antt =====
-- internal/controller: the reconciliation of a Pacto.
pub mod Conditions
pub mod Effects
pub mod Status
pub mod Probes
pub mod Summary
pub mod Counts
pub mod Probed
pub mod Populate
pub mod Finish
pub mod Environment
pub mod Runtime
pub mod Reconcile
pub mod Ends
pub mod Complete
pub mod StatusGauge
pub mod Reference
pub mod Cached
pub mod Refusal
pub mod Handlers
pub mod Watches
pub mod Overrides
pub mod Merge
pub mod Revisions
mod Lists
pub mod Examples
mod Runs
mod Tests
pub mod Readiness
