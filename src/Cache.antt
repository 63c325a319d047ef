-- ===== src/Cache.antt =====
-- The verification cache of src/mind3/core/cache.py.
pub mod Store
pub mod Contents
mod Examples
