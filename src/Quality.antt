-- ===== src/Quality.antt =====
-- apps/api/libs/domain/services/loops-quality/loops-second-opinion-comparison.util.ts: the findings
-- of two reviewers and their comparison.
mod Findings
pub mod Counting
unfoldable pub use Findings.*
