-- ===== src/Http1.antt =====
-- pcc_gateway/http1.py: the request decoder and the response encoder.
pub mod Error
pub mod Bytes
pub mod Chunk
pub mod Head
pub mod State
pub mod Steps
pub mod Codec
pub mod Encoder
pub mod Body
pub mod Ends
pub mod Framing
pub mod Invariant
pub mod Rounds
pub mod Loop
pub mod Smuggling
pub mod Closing
pub mod Tests
