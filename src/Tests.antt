-- ===== src/Tests.antt =====
-- The theorems at concrete inputs, in the memory of Layout/Memory.antt.
pub mod Builders
pub mod Frames
pub mod Calculator
pub mod Rpc
pub mod Main
pub mod Client
