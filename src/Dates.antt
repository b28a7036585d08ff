-- ===== src/Dates.antt =====
-- The dates of taiga/projects/schedule/services.py: effective starts and due dates, the bounds
-- that the children of an item impose, the checks that refuse a date, and how dates are changed.
mod Effective
mod Children
mod Required
mod Changes
mod Shift
mod Expand
unfoldable pub use Effective.*
unfoldable pub use Children.*
unfoldable pub use Required.*
unfoldable pub use Changes.*
unfoldable pub use Shift.*
unfoldable pub use Expand.*
