-- ===== src/Assets.antt =====
-- The collection of assets that no live page refers to: internal/service/gc.go, with what it takes from
-- internal/service/asset.go.
pub mod Scan
pub mod Windows
pub mod Found
pub mod Gc
pub mod Kept
pub mod Exact
pub mod Live
