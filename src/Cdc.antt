-- ===== src/Cdc.antt =====
-- The structural clock-domain-crossing checker, tools/cdc_checker.
pub mod Netlist
pub mod Domains
pub mod Crossings
pub mod Synchronizers
pub mod Report
pub mod Tokens
pub mod Statements
pub mod Always
mod Reach
mod Weight
mod Cone
mod Complete
mod Found
mod Into
mod Listed
mod Status
mod Exit
mod Passed
mod Sampled
mod Chained
mod Safe
mod Consumed
mod Lost
mod Examples
