-- ===== src/CloudArchive.antt =====
-- CloudArchiveStore of utils/cloud_archive.py
pub mod Rows
pub mod Enqueue
pub mod Artifacts
pub mod Manifests
pub mod Steps
pub mod Counts
pub mod Consistent
pub mod Tasks
pub mod Reachable
pub mod Completed
pub mod Claims
mod Tests
