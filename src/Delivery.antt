-- ===== src/Delivery.antt =====
-- apps/api/libs/domain/services/loops-evidence/loops-evidence.service.ts: the gates, the recipe, the
-- evidence and the release gate of a loop.
mod Types
mod Status
mod Opinions
mod Gates
mod Blockers
mod Summary
mod Recipe
mod Artifacts
mod Report
pub mod Readiness
pub mod Totals
pub mod Oversight
pub mod Verdicts
pub mod Tracing
pub use Types.*
unfoldable pub use Status.*
unfoldable pub use Opinions.*
unfoldable pub use Gates.*
unfoldable pub use Blockers.*
unfoldable pub use Summary.*
unfoldable pub use Recipe.*
unfoldable pub use Artifacts.*
unfoldable pub use Report.*
