-- ===== src/Compress.antt =====
-- internal/compress: the engines behind the offloads.
pub mod Marker
pub mod Diff
pub mod Log
