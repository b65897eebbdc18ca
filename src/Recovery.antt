-- ===== src/Recovery.antt =====
-- utils/api_recovery.py and utils/recovery_providers.py: results of provider tasks whose worker was lost.
pub mod Providers
pub mod Rows
pub mod Submissions
pub mod Checks
pub mod Cycle
pub mod Verdicts
pub mod Ending
pub mod Tidy
pub mod Publishing
pub mod Raising
mod Tests
