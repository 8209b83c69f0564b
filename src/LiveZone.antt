-- ===== src/LiveZone.antt =====
-- internal/livezone: the compression of the live zone of a request body by byte-range surgery.
pub mod Resize
pub mod Splice
pub mod Plan
pub mod Compress
pub mod Context
pub mod Encode
pub mod Pass
pub mod Planned
pub mod Picked
pub mod Steps
pub mod Replay
pub mod Dispatch
