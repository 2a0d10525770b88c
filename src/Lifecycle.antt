-- ===== src/Lifecycle.antt =====
-- The life of a plugin: core/lifecycle/.
pub mod Effects
pub mod Fiber
pub mod Rollback
pub mod States
pub mod Topo
pub mod Loader
mod Tests
