-- ===== src/Ops.antt =====
-- internal/core/ops.go: the mutations of a comment list.
pub mod Types
pub mod Hosts
pub mod Handlers
pub mod Apply
pub mod Extend
pub mod AppendOnly
pub mod Found
pub mod Failures
pub mod React
pub mod Merge
