-- ===== src/Schedules.antt =====
-- The functions of taiga/projects/schedule/services.py that create, update, order and delete the
-- schedules of single items.
mod Sync
mod Upsert
mod EpicOrder
mod Delete
pub mod Closing
pub mod Removal
pub mod Stored
unfoldable pub use Sync.*
unfoldable pub use Upsert.*
unfoldable pub use EpicOrder.*
unfoldable pub use Delete.*
