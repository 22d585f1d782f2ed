-- ===== src/Docs.antt =====
-- The document service of internal/service/doc.go: publish, drafts, reads and removal.
pub mod Input
pub mod Mount
pub mod Metadata
pub mod Publish
pub mod Authorized
pub mod Drafts
pub mod Saving
pub mod Inherited
pub mod Owned
pub mod Provenance
pub mod Kept
pub mod Fresh
pub mod Added
pub mod Succeeds
pub mod Published
pub mod Promote
pub mod Promoted
pub mod Promoting
pub mod Removal
pub mod Removed
pub mod Reading
