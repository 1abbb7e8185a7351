-- ===== src/Render.antt =====
-- internal/render
pub mod Names
pub mod Config
pub mod Merge
