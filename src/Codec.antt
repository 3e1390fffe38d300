-- ===== src/Codec.antt =====
-- src/codec.rs: framing and the structured messages of both directions.
pub mod Primitives
pub mod Frame
pub mod Simple
mod Parts
pub mod Frontend
pub mod Backend
