-- ===== src/Calculator.antt =====
-- rust/src/schema/calculator_capnp.rs.
pub mod Operators
pub mod Interface
pub mod Requests
pub mod Server
pub mod Capabilities
pub mod Fields
pub mod Routing
pub mod Value
pub mod Function
pub mod Expression
pub mod EvaluateParams
pub mod EvaluateResults
pub mod DefFunctionParams
pub mod DefFunctionResults
pub mod GetOperatorParams
pub mod GetOperatorResults
