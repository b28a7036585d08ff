-- ===== src/Permissions.antt =====
-- Who may do what in a project: taiga/permissions, and the filter of visible projects of
-- taiga/base/filters.py.
mod Choices
mod Services
pub mod Granted
pub mod Laws
unfoldable pub use Choices.*
unfoldable pub use Services.*
