-- ===== src/Transfer.antt =====
-- taiga/projects/services/transfer.py: a project's change of owner.
mod Services
pub mod Handover
unfoldable pub use Services.*
