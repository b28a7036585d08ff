-- ===== src/Propagation.antt =====
-- How a change of dates spreads: forward along the dependencies, and up to the user story and the
-- epic of an item. (taiga/projects/schedule/services.py)
mod Moves
mod Chain
mod Bounds
pub mod Keyed
pub mod Writes
pub mod Widening
pub mod Monotone
unfoldable pub use Moves.*
unfoldable pub use Chain.*
unfoldable pub use Bounds.*
