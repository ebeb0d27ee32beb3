-- ===== src/Frames.antt =====
-- rust/src/schema/frames_capnp.rs: a module for each struct of schema/frames.capnp.
pub mod Rational
pub mod AudioFrame
pub mod VideoFrame
pub mod Frame
pub mod Frames
