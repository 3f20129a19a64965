-- ===== src/Store.antt =====
-- apps/api/libs/domain/services/loops-store/loops-file-store.service.ts: the files of one loop.
mod Files
mod Writes
mod Reading
mod Guard
mod Doctor
unfoldable pub use Files.*
unfoldable pub use Writes.*
unfoldable pub use Reading.*
unfoldable pub use Guard.*
unfoldable pub use Doctor.*
