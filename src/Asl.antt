-- ===== src/Asl.antt =====
-- phase1/asl.c: the active semaphore list. `Defs` has its operations; `List` describes the list in
-- memory, `Traverse` proves the search, and `Insert` and `Remove` what the operations do.
pub mod Defs
pub mod List
pub mod Traverse
pub mod Queues
pub mod Requeue
pub mod Frame
pub mod Blocked
pub mod Init
pub mod Focus
pub mod Insert
pub mod Remove
