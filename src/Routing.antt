-- ===== src/Routing.antt =====
-- Routing of a request: src/mind3/skills/router.py and src/mind3/core/intent.py.
pub mod Words
pub mod Skills
pub mod Router
pub mod Intent
mod Best
mod Gate
mod Examples
