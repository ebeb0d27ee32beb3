-- ===== src/Calculator/Function.antt =====
-- The interface `calculator::function`.
pub mod Interface
pub mod Requests
pub mod Server
pub mod CallParams
pub mod CallResults
