-- ===== src/ItemOrder.antt =====
-- The order of the schedule items among their siblings: `ScheduleItemOrder` of
-- taiga/projects/schedule/models.py and the functions on it in taiga/projects/schedule/services.py.
mod Keys
mod Persist
mod Move
mod Clean
mod Retry
pub mod Writes
pub mod Safety
pub mod Indexes
pub mod Clearance
pub mod Listing
pub mod Renumber
pub mod Groups
pub mod Members
pub mod Arrange
pub mod Transfer
pub mod Regroup
unfoldable pub use Keys.*
unfoldable pub use Persist.*
unfoldable pub use Move.*
unfoldable pub use Clean.*
unfoldable pub use Retry.*
