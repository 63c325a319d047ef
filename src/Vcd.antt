-- ===== src/Vcd.antt =====
-- Waveforms as evidence, parse_vcd and decode_counterexample of src/mind3/core/vcd_evidence.py.
pub mod Lines
mod Dicts
pub mod Reader
pub mod Grouping
pub mod Decode
pub mod Table
pub mod Quoted
mod Evidence
mod Bounds
mod Examples
