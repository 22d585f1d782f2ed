-- ===== src/Render.antt =====
-- internal/core/render.go: what keeps a page's data from ending the script that carries it.
pub mod Script
pub mod Closed
pub mod Markup
