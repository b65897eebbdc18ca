-- ===== src/AgentTasks.antt =====
-- utils/agent_tasks.py
pub mod Rows
pub mod Tasks
pub mod Children
pub mod Leases
pub mod Steps
pub mod Idempotence
pub mod Cancelling
mod Tests
