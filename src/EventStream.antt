-- ===== src/EventStream.antt =====
-- The event stream: core/event_stream/.
pub mod Types
pub mod Registry
pub mod Store
pub mod Stream
pub mod Manager
pub mod Numbering
pub mod Append
pub mod Batches
pub mod Replay
pub mod Restore
pub mod History
mod Tests
