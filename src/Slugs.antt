-- ===== src/Slugs.antt =====
-- internal/platform/sluglock: the keyed mutex that makes a read-modify-write of a slug atomic.
pub mod Lock
pub mod Threads
pub mod Invariant
pub mod Holding
pub mod Acquiring
pub mod Releasing
pub mod Exclusion
pub mod Holder
pub mod Draining
