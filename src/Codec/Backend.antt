-- ===== src/Codec/Backend.antt =====
-- src/codec.rs, the backend direction: the messages, `to_frame` and `Backend::decode`.
mod Messages
mod Encode
mod Bodies
mod Decode
pub mod Loops
pub mod Rounds
pub mod Fields
pub mod Authentications
pub mod Named
pub mod Inverse
pub mod OnWire
pub use Messages.*
unfoldable pub use Encode.*
unfoldable pub use Bodies.*
unfoldable pub use Decode.*
