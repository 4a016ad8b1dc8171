-- ===== src/Buffer.antt =====
-- pcc_gateway/buffer.py: owned segments, retained views of them, and the byte queue with watermarks.
pub mod Segment
pub mod View
pub mod Channel
pub mod Copy
pub mod Owned
pub mod Append
pub mod Tests
