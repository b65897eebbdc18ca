-- ===== src/Scheduler.antt =====
-- utils/scheduler_store.py
pub mod Rows
pub mod Settings
pub mod Logs
pub mod Store
pub mod Submit
pub mod Workers
pub mod Claim
pub mod Complete
pub mod Cancel
pub mod Queries
pub mod Changes
pub mod Limits
pub mod WellFormed
pub mod Choice
pub mod Lifecycle
pub mod Sweeping
pub mod Isolation
pub mod Restart
pub mod Visible
mod Tests
