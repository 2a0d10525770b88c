-- ===== src/Plan.antt =====
-- Plans: core/plan_dag_engine.py and the plan state of core/plan_orchestrator.py.
pub mod Types
pub mod Context
pub mod Dag
pub mod Successors
pub mod Engine
pub mod Control
pub mod Order
pub mod Depth
pub mod Walks
pub mod Attempts
pub mod Termination
pub mod Safety
pub mod Completion
pub mod Decisions
mod Tests
