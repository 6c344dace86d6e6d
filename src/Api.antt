-- ===== src/Api.antt =====
-- The types of the operator's API group, api/v1alpha1.
pub mod Conditions
pub mod Spec
pub mod Status
pub mod Pacto
pub mod Revision
