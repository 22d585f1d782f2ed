-- ===== src/Roles.antt =====
-- internal/service: who may do what with a document.
pub mod Capability
pub mod Share
pub mod Agree
pub mod Codes
