-- ===== src/Storage.antt =====
-- internal/storage: the records that are stored, and the in-memory store.
pub mod Value
pub mod Float
pub mod Meta
pub mod Encoding
pub mod Stored
pub mod State
pub mod Tables
pub mod Decimal
pub mod Blobs
pub mod Digits
pub mod Purge
pub mod Rows
pub mod Versions
