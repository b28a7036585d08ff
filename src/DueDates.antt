-- ===== src/DueDates.antt =====
-- taiga/projects/due_dates: the status of a due date.
mod Serializers
pub mod Status
unfoldable pub use Serializers.*
