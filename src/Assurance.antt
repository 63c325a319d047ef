-- ===== src/Assurance.antt =====
-- The tapeout-readiness checks of src/mind3/core/assurance.py.
pub mod Readiness
pub mod Ready
mod Examples
