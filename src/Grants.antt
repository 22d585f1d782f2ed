-- ===== src/Grants.antt =====
-- Direct grants of a document: the doc_member table and the grants API, of internal/service/grants.go
-- and internal/service/doc_member_mirror.go.
pub mod Table
pub mod Rows
pub mod Copies
pub mod Service
pub mod Listing
pub mod Entries
pub mod Legacy
pub mod Migration
pub mod Admins
pub mod Adding
pub mod Removing
pub mod Protected
pub mod Deleted
pub mod Written
