-- ===== src/StateManager.antt =====
-- The state manager: core/state_manager.py.
pub mod Types
pub mod Access
pub mod Notify
pub mod Store
pub mod Retry
pub mod Publish
pub mod Roles
pub mod Coherence
pub mod Versions
pub mod View
pub mod Refinement
pub mod Races
pub mod History
mod Tests
