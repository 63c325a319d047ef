-- ===== src/Action.antt =====
-- The policy and the execution of an action in src/mind3/core/driver.py.
pub mod Paths
pub mod Disk
pub mod Policy
pub mod Execute
pub mod Ancestors
pub mod Writes
pub mod Confined
mod Examples
