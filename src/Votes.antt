-- ===== src/Votes.antt =====
-- taiga/projects/votes: the votes for an object and their counter.
mod Services
mod Rows
pub mod Adding
pub mod Consistent
pub mod Interleaved
pub mod RoundTrip
unfoldable pub use Services.*
