-- ===== src/Rules.antt =====
-- What the single decisions of the engine, the store and the facade promise.
pub mod Closing
pub mod Counting
pub mod Doctor
pub mod Evidence
pub mod Gates
pub mod Limits
pub mod Picking
