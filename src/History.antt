-- ===== src/History.antt =====
-- utils/history_store.py: the class HistoryStore, and the table that it keeps.
pub mod Items
pub mod Replay
pub mod Refinement
pub mod Exact
pub mod Repairing
pub mod Merging
pub mod Protected
pub mod Answers
pub mod Store
mod Tests
pub mod Contents
pub mod Views
pub mod Saving
pub mod Recovering
