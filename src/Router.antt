-- ===== src/Router.antt =====
-- The message router: shared/messages.py and shell/message_router.py.
pub mod Messages
pub mod Dispatch
pub mod Attempts
pub mod Once
pub mod Letters
mod Tests
