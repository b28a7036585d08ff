-- ===== src/Api.antt =====
-- The handlers of taiga/projects/schedule/api.py, on the data that the validators pass on.
mod Access
mod Links
mod Items
pub mod Permitted
pub mod Listed
unfoldable pub use Access.*
unfoldable pub use Links.*
unfoldable pub use Items.*
