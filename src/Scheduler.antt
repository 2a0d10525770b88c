-- ===== src/Scheduler.antt =====
-- The job scheduler: shell/job_scheduler.py.
pub mod Cron
pub mod Tasks
pub mod Registration
pub mod Table
pub mod CronLaws
pub mod Heartbeats
mod Tests
