-- ===== src/Remote.antt =====
-- apps/api/libs/domain/services/loops-remote-runners/loops-remote-runners.service.ts: the jobs that
-- a remote runner executes on one shard, and the ports between.
mod Jobs
mod Port
pub mod Agreement
pub mod Refusals
unfoldable pub use Jobs.*
unfoldable pub use Port.*
