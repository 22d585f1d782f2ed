-- ===== src/Reconcile.antt =====
-- internal/core/reconcile.go: re-binding the anchors of comments when a version is published.
pub mod Text
pub mod Anchors
pub mod Comments
pub mod Found
pub mod Branches
pub mod Resolves
pub mod Total
