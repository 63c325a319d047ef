-- ===== src/Driver.antt =====
-- The 11-phase lifecycle of src/mind3/core/driver.py, PhaseDriver.
pub mod Trace
pub mod Snapshot
pub mod Host
pub mod Prompts
pub mod State
pub mod Finish
pub mod Lifecycle
pub mod Rollback
pub mod Rules
pub mod Chain
pub mod Frame
pub mod Outcome
pub mod Judgement
pub mod Endings
mod Examples
pub mod Tamper
