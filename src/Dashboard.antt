-- ===== src/Dashboard.antt =====
-- apps/web/app/loops/loops-dashboard-model.ts: the board, the queues and the inbox of the page.
mod Types
mod Board
mod Queues
mod Inbox
pub mod Columns
pub mod Lanes
pub mod Ages
pub use Types.*
unfoldable pub use Board.*
unfoldable pub use Queues.*
unfoldable pub use Inbox.*
