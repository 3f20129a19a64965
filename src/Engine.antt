-- ===== src/Engine.antt =====
-- apps/api/libs/domain/services/loops-engine/loops-engine.service.ts: the state machine of a loop.
mod Ports
mod Phases
mod Spec
mod Scheduler
mod Closing
mod Advance
unfoldable pub use Ports.*
unfoldable pub use Phases.*
unfoldable pub use Spec.*
unfoldable pub use Scheduler.*
unfoldable pub use Closing.*
unfoldable pub use Advance.*
