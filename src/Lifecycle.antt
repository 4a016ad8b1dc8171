-- ===== src/Lifecycle.antt =====
-- pcc_gateway/lifecycle.py: generations, metrics, admission and publication.
pub mod Generation
pub mod Metrics
pub mod State
pub mod Admission
pub mod Publish
pub mod Gauges
pub mod Calls
pub mod Orders
pub mod Holders
pub mod Cleanup
pub mod Tests
