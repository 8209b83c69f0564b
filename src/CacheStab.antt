-- ===== src/CacheStab.antt =====
-- internal/cachestab: what a proxy remembers of each session, to keep its prompt cache stable.
pub mod Replay
pub mod Drift
pub mod Volatile
