-- ===== src/Occ.antt =====
-- taiga/projects/occ: the versions of objects that several users edit.
mod Mixins
pub mod Fields
pub mod Updates
unfoldable pub use Mixins.*
