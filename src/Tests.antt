-- ===== src/Tests.antt =====
-- The theorems at concrete inputs, and runs of the code.
mod Samples
mod Program
mod Dates
mod Order
mod Propagation
mod Bulk
mod Api
mod Orders
mod Votes
mod Services
mod Closing
