-- ===== src/Events.antt =====
-- internal/core/events.go: event ids, deduplication, and the migration of legacy flat comments.
pub mod Eid
pub mod Log
pub mod Dedup
pub mod Legacy
pub mod Migrate
pub mod Stamp
pub mod Migrated
pub mod Compact
