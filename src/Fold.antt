-- ===== src/Fold.antt =====
-- internal/core/fold.go: folding a comment's event log into a point-in-time snapshot.
pub mod Reaction
pub mod State
pub mod Apply
pub mod Order
pub mod Snapshot
pub mod Sorted
pub mod ReactionSet
pub mod Invariant
pub mod Sound
pub mod TimeTravel
pub mod Duplicate
pub mod Latest
pub mod Compaction
