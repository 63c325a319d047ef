-- ===== src/Release.antt =====
-- The release bundle and its human approval in src/mind3/core/release.py.
pub mod Bundle
pub mod Integrity
mod Examples
