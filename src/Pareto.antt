-- ===== src/Pareto.antt =====
-- The design points of src/mind3/core/driver.py, PPAOptimizer.
pub mod Numbers
pub mod Optimizer
pub mod Dominance
pub mod Frontier
mod Examples
