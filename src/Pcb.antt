-- ===== src/Pcb.antt =====
-- phase1/pcb.c: the process control blocks. `Defs` has the free list and the process queues, `Tree`
-- the process trees; `Queue` and `Free` prove what the operations of `Defs` do.
pub mod Defs
pub mod Free
pub mod Queue
pub mod Tree
