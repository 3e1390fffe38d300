-- ===== src/Grammar.antt =====
-- src/grammar.rs, the generated runtime grammar of the backend role.
mod States
mod Internal
mod External
mod Transitions
pub mod Laws
pub mod Paths
pub mod Errors
pub use States.*
unfoldable pub use Internal.*
unfoldable pub use External.*
unfoldable pub use Transitions.*
