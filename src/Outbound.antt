-- ===== src/Outbound.antt =====
-- What leaves the machine: the gate of shell/policy_engine/engine.py and the requests for the user's
-- consent of shell/outbound_manager/.
pub mod Policy
pub mod Consent
pub mod Visible
pub mod Sessions
pub mod Decisions
mod Tests
