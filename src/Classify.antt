-- ===== src/Classify.antt =====
-- The semantic classifier (custom_components/ontology/semantic_classifier.py). A text is lowered and
-- searched as the list of its codes, in ASCII.
pub mod Home
pub mod Rules
pub mod EnergyRole
pub mod Camera
pub mod Apply
pub mod Protect
mod Tests
