-- ===== src/Codec/Frontend.antt =====
-- src/codec.rs, the frontend direction: the messages, `to_frame` and `Frontend::decode`.
mod Messages
mod Encode
mod Decode
pub mod Inverse
pub mod OnWire
pub use Messages.*
unfoldable pub use Encode.*
unfoldable pub use Decode.*
