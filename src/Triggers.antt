-- ===== src/Triggers.antt =====
-- apps/api/libs/domain/services/loops-triggers/loops-triggers.service.ts, the trigger files of the
-- store, and apps/api/src/modules/loops/loops-trigger-scheduler.processor.ts.
mod Cron
mod Files
mod Firing
mod Scheduler
pub mod Times
pub mod Ids
pub mod Ticks
pub mod Failures
unfoldable pub use Cron.*
unfoldable pub use Files.*
unfoldable pub use Firing.*
unfoldable pub use Scheduler.*
