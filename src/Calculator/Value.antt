-- ===== src/Calculator/Value.antt =====
-- The interface `calculator::value`.
pub mod Interface
pub mod Requests
pub mod Server
pub mod ReadParams
pub mod ReadResults
