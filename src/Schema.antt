-- ===== src/Schema.antt =====
-- packages/contracts/src/schemas/loops.schema.ts: the records of one delivery loop. A field that
-- no modelled code reads or writes is left out; numbers are natural numbers.
mod Status
mod Records
unfoldable pub use Status.*
pub use Records.*
