-- ===== src/Validator.antt =====
-- internal/validator: a contract and a snapshot of the cluster give a list of checks.
pub mod Check
pub mod Image
pub mod RuntimeChecks
pub mod Ports
pub mod Validate
pub mod PortsDiff
pub mod Verdict
pub mod Coverage
pub mod ImageLaws
pub mod Compliance
pub mod Outcome
mod Tests
