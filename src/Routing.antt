-- ===== src/Routing.antt =====
-- pcc_gateway/routing.py: route patterns, request paths and the route table.
pub mod Path
pub mod Pattern
pub mod Router
pub mod Split
pub mod Normal
pub mod Sorting
pub mod Precedence
pub mod Refusal
pub mod Tests
