-- ===== src/Interrupts.antt =====
-- phase2/interrupts.c: `Defs` has the functions, `Timer` and `Clock` are about the processor local timer
-- and the pseudo-clock, `Pending` about the tests for pending interrupts.
pub mod Defs
pub mod Timer
pub mod Clock
pub mod Pending
