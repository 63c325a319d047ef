-- ===== src/Signoff.antt =====
-- The sequencing of the silicon signoff gates (src/mind3/core/verifier.py, SiliconSignoffVerifier).
pub mod Report
pub mod Gates
pub mod Requirement
pub mod Plan
pub mod Reports
pub mod Verdict
pub mod Order
mod Examples
