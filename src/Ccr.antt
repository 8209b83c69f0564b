-- ===== src/Ccr.antt =====
-- internal/ccr: reversible compression. Markers, the store interface and its in-memory backend.
pub mod Marker
pub mod Key
pub mod Store
pub mod InMemory
