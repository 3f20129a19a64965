-- ===== src/Ledger.antt =====
-- What the state, the shards and the records of a loop must agree on, and how the writes of the
-- store keep the agreement.
mod Sound
pub mod Keeps
pub mod Progress
pub mod Rounds
pub mod Shards
pub mod Requests
pub mod Reach
pub mod Batches
pub mod Accepting
pub mod Interventions
pub mod Verdicts
pub use Sound.*
pub use Keeps.*
