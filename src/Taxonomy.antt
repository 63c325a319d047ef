-- ===== src/Taxonomy.antt =====
-- The failure taxonomy, src/mind3/core/failure_taxonomy.py.
pub mod Categories
pub mod Signature
pub mod Classifier
mod Consistent
mod Labels
mod Examples
