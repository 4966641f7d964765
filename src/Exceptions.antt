-- ===== src/Exceptions.antt =====
-- phase2/exceptions.c: `Copy`, `Terminate` and `Defs` have the functions; `Switch` is about the cases of
-- `SYSCALL_handler`, `PassUp`, `Semaphores`, `Stall`, `Wake` and `Create` about the services.
pub mod Copy
pub mod Terminate
pub mod Defs
pub mod Switch
pub mod PassUp
pub mod Semaphores
pub mod Stall
pub mod Wake
pub mod Create
