-- ===== src/Support.antt =====
-- The memory of the support level (phases 3 to 5), which runs as processes of the nucleus.
--
-- As in Kernel.antt, structs are modelled field by field: `support_t` by its address, `pte_t` by the
-- address of the entry, `swapPoolTable` by the index of the frame. All `int` cells (semaphores,
-- device registers, buffers, the words of user space) are in `words`, and the bytes of strings in
-- `chars`. `calls` lists the SYSCALLs made, the last one first, and `tlb` the entries that may be in
-- the TLB. `clock` holds the readings of the TOD clock still to come.
pub mod Const
pub mod Code
pub mod Logic
pub mod Machine
use operating_system_cs.Base.{ℕ, List}
use operating_system_cs.Ring.{Ptr, Field}
use operating_system_cs.Kernel.{State, Context}

-- The registers a0 to a3 at a SYSCALL.
pub record Call : Type 0 where
  pub number : ℕ
  pub arg1 : ℕ
  pub arg2 : ℕ
  pub arg3 : ℕ

-- The addresses that the linker chooses for static data, functions and the stack of `test`.
pub record Statics : Type 0 where
  pub swap_pool_sema4 : Ptr
  pub master_semaphore : Ptr
  pub mutex : Ptr
  pub adl_mutex : Ptr
  pub delayd_table : Ptr
  pub delay_daemon : Ptr
  pub tlb_exception_handler : Ptr
  pub general_exception_handler : Ptr
  pub daemon_state : Ptr
  pub init_state : Ptr
  pub init_support_arr : Ptr

pub record Store : Type 0 where
  -- `support_t`
  pub sup_asid : Field
  pub sup_except_state : Ptr → ℕ → State
  pub sup_except_context : Ptr → ℕ → Context
  -- `pte_t`
  pub entry_hi : Field
  pub entry_lo : Field
  -- `swapPoolFrame_t`
  pub asid : Field
  pub vpn : Field
  pub matching_pg_table_entry : Field
  -- the static variable of `page_replace`
  pub next_frame : ℕ
  -- `delayd_t`, and the heads of the list of free descriptors and of the active delay list
  pub d_next : Field
  pub d_wake_time : Field
  pub d_sup_struct : Field
  pub delayd_free_h : Ptr
  pub delayd_h : Ptr
  -- `int` cells, bytes, processor states in `test`, the saved exception state
  pub words : Ptr → ℕ
  pub chars : Ptr → ℕ
  pub states : Ptr → State
  pub bios : State
  -- the current process' support structure, as `currentP->p_supportStruct` names it
  pub current_support : Ptr
  -- registers, the TLB, the clock and the SYSCALLs
  pub status : ℕ
  pub cp0_entry_hi : ℕ
  pub cp0_entry_lo : ℕ
  pub tlb : List (ℕ × ℕ)
  pub clock : List ℕ
  pub calls : List Call
  -- the characters on the printer's paper, the last one first: only the device writes them
  pub paper : List ℕ
  -- what disk 0 has done, the last command first, each with the buffer's address before it: only the
  -- device writes it
  pub moves : List ℕ
  -- the value of a local variable that is not initialised
  pub junk : ℕ
  pub statics : Statics
