-- ===== src/OrderUpdates.antt =====
-- taiga/projects/services/bulk_update_order.py: the orders of elements that a user moves.
mod Apply
pub mod Choices
pub mod Elements
pub mod Written
pub mod Rows
pub mod Maps
pub mod Shifts
pub mod Keeping
pub mod Rounds
pub mod Sorting
pub mod Noted
pub mod Moved
pub mod Result
unfoldable pub use Apply.*
