-- ===== src/Access.antt =====
-- Who may do what with a document: internal/transport/httpx/capability.go, with what it asks of
-- internal/service/auth.go.
pub mod Lookup
pub mod Decision
pub mod Gates
pub mod Cleared
pub mod Revoked
pub mod Given
pub mod Granted
pub mod Adding
pub mod Lesser
pub mod Managers
