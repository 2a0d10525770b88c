-- ===== src/Subagent.antt =====
-- Agents that work on a step of a plan: core/subagent_scheduler.py and core/subagent_types.py.
pub mod Tools
pub mod Loop
pub mod Guarded
pub mod Budget
pub mod Reviews
mod Tests
