-- ===== src/Dates/Children.antt =====
-- The bounds that the tasks of a user story, and the user stories of an epic, impose on it.
mod Defs
mod Laws
mod Violations
unfoldable pub use Defs.*
unfoldable pub use Laws.*
unfoldable pub use Violations.*
