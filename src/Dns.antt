-- ===== src/Dns.antt =====
-- pcc_gateway/dns.py: messages, addresses, the cache and the resolver's state machine.
pub mod Wire
pub mod Ends
pub mod Names
pub mod Address
pub mod Response
pub mod Policy
pub mod Cache
pub mod Operation
pub mod Config
pub mod Attempts
pub mod Driver
pub mod Lines
pub mod Resolver
pub mod Deadlines
pub mod Bounded
pub mod Replies
pub mod Drives
pub mod Keys
pub mod Cached
pub mod Accepts
pub mod Rebinding
pub mod Replying
pub mod Spoofing
pub mod Allowed
pub mod Mapped
pub mod Begins
pub mod Framing
pub mod Tests
