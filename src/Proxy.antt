-- ===== src/Proxy.antt =====
-- pcc_gateway/proxy.py: the headers that a proxied request carries, when it is tried again, the leases
-- of upstreams, and the turns of their addresses.
pub mod Headers
pub mod Retry
pub mod Pool
pub mod Leases
pub mod Rotation
pub mod Turns
pub mod Forwarding
pub mod Kept
pub mod Tests
