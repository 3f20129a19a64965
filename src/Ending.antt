-- ===== src/Ending.antt =====
-- The end of the loop of the scheduler: what its rounds use up.
pub mod Totals
pub mod Measure
pub mod Scheduler
