-- ===== src/Model.antt =====
-- The data that the schedule services read and write: the rows of their tables, the outcomes of
-- their calls, and the queries that several of them share.
mod Entities
mod Outcome
mod Tables
unfoldable pub use Entities.*
unfoldable pub use Outcome.*
unfoldable pub use Tables.*
