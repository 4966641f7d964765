-- ===== src/Scheduler.antt =====
-- phase2/scheduler.c: `Defs` has the function, `Dispatch` and `Ends` what it does.
pub mod Defs
pub mod Dispatch
pub mod Ends
