-- ===== src/Scheduler.antt =====
-- The job runner of app/services/scheduler.py.
pub mod Runs
pub mod Guard
pub mod Steps
mod Table
pub mod ActiveRuns
pub mod Enqueue
pub mod Ownership
pub mod Reaper
pub mod Missed
pub mod Duties
mod Examples
