-- ===== src/Coordinator.antt =====
-- The sync operations of `OntologyCoordinator` (custom_components/ontology/coordinator.py). What it
-- calls in the graph modules, in Home Assistant and in its callbacks is the interface `Services`.
pub mod State
pub mod Services
pub mod EntitySync
pub mod FullSync
pub mod Failures
pub mod Health
pub mod Batch
mod Tests
