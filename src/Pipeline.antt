-- ===== src/Pipeline.antt =====
-- src/pipeline.rs: the ledger of frontend operations and the order of their responses.
mod Types
mod Classify
mod Frontend
mod Prepare
mod Backend
mod Attribute
pub mod Replacements
pub mod Phases
pub mod Rows
pub mod Answers
pub mod Order
pub mod Emission
pub mod Capacity
pub mod Deviations
pub mod Attribution
pub mod Sequences
pub mod Runs
pub mod Invariant
unfoldable pub use Types.*
unfoldable pub use Classify.*
unfoldable pub use Frontend.*
unfoldable pub use Prepare.*
unfoldable pub use Backend.*
unfoldable pub use Attribute.*
