-- ===== src/Service.antt =====
-- apps/api/src/modules/loops/loops.service.ts: the operations of the API, and the ports that they
-- hand to the engine. The files are the source of truth (no database is attached).
mod Shards
mod Rounds
mod Operations
unfoldable pub use Shards.*
unfoldable pub use Rounds.*
unfoldable pub use Operations.*
