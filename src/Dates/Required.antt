-- ===== src/Dates/Required.antt =====
-- The start that the incoming dependencies of a schedule require.
mod Defs
mod Laws
mod Ancestors
unfoldable pub use Defs.*
pub use Laws.*
unfoldable pub use Ancestors.*
