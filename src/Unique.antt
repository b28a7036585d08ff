-- ===== src/Unique.antt =====
-- taiga/base/utils/slug.py: slugs and references that are not taken.
pub mod Search
mod Slugs
mod Refs
pub mod Free
unfoldable pub use Slugs.*
unfoldable pub use Refs.*
