-- ===== src/Comments.antt =====
-- The comment service, which owns the writes of a document's comments: internal/service/comment.go.
pub mod Service
pub mod Concurrent
pub mod Serial
