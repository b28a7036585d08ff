-- ===== src/Closing.antt =====
-- When a user story and a milestone are closed: services.py and signals.py of taiga/projects/userstories,
-- tasks and issues, and taiga/projects/milestones/services.py.
mod Rows
mod Services
mod Signals
pub mod Milestones
pub mod Recalculated
pub mod Settled
pub mod Reconsidered
pub mod Handlers
unfoldable pub use Rows.*
unfoldable pub use Services.*
unfoldable pub use Signals.*
