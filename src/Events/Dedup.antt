-- ===== src/Events/Dedup.antt =====
-- What DedupEvents of internal/core/events.go keeps: the proofs are in the modules below.
pub mod Last
pub mod Once
pub mod Fixed
pub mod Append
