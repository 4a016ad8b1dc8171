-- ===== src/Upstream.antt =====
-- pcc_gateway/proxy_http1.py: the decoder of an upstream's responses, and the deadlines of an exchange.
pub mod Response
pub mod Codec
pub mod Lengths
pub mod Counting
pub mod Feeding
pub mod Request
pub mod Injection
pub mod Deadline
pub mod Tests
