-- ===== src/Bulk.antt =====
-- `apply_schedule_dates_in_bulk` of taiga/projects/schedule/services.py, step by step.
mod Request
pub mod Latest
pub mod Sorted
mod Lock
mod Apply
mod Validate
mod Emit
mod Run
pub mod Commit
pub mod Events
unfoldable pub use Request.*
unfoldable pub use Lock.*
unfoldable pub use Apply.*
unfoldable pub use Validate.*
unfoldable pub use Emit.*
unfoldable pub use Run.*
