-- ===== src/Formal.antt =====
-- The tautology filter of src/mind3/core/formal_templates.py: tokens, parser and truth table.
pub mod Scan
pub mod Token
pub mod Node
pub mod Parser
pub mod Table
pub mod Fuel
pub mod Assignments
pub mod Proved
pub mod Strip
pub mod Unwrapped
pub mod Split
pub mod Join
pub mod Structure
mod Decided
pub mod Filter
mod Examples
