-- ===== src/Toolbox.antt =====
-- The tools that a plan may use and their permissions: shell/tool_registry/.
pub mod Registry
pub mod Invoker
pub mod Permissions
pub mod External
pub mod Once
mod Tests
