-- ===== src/Locks.antt =====
-- apps/api/libs/domain/services/loops-locks: the work lock of an issue and its repository, and its
-- two backends.
mod Backends
pub mod Memory
pub mod Redis
mod Requests
pub mod Keys
pub mod Promise
pub mod InMemory
pub mod OnRedis
pub mod Refinement
pub mod Sharing
pub mod Ownership
pub mod Exclusion
pub mod Safety
unfoldable pub use Backends.*
unfoldable pub use Requests.*
