-- ===== src/Matching.antt =====
-- backend/app/matching: the blocks of candidate rows that the matching engine compares.
pub mod Blocking
pub mod Blocks
pub mod Field
pub mod Types
pub mod Comparison
pub mod Decisions
pub mod Exact
pub mod Composite
pub mod Groups
pub mod Engine
pub mod Rows
pub mod Tracked
pub mod Recorded
pub mod Chains
pub mod Identical
pub mod Scores
pub mod Candidates
pub mod Pairings
pub mod Grouped
pub mod Wiring
pub mod Partition
pub mod Results
pub mod Clustering
mod Tests
