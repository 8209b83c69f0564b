-- ===== src/Detect.antt =====
-- internal/detect.
pub mod Patterns
pub mod ReadProtect
