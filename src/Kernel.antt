-- ===== src/Kernel.antt =====
-- The memory that the nucleus works on, and the commands that read and write it.
--
-- The structs of h/types.h are modelled field by field: `p_next : Ptr → Ptr` holds the field
-- `p_next` of the `pcb_t` at each address, so that structs of different types do not overlap.
-- All `int` cells (semaphores, device registers, bus registers) are in `words`.
-- `state_t` records stand in the pcbs, in support structures, at BIOSDATAPAGE and at the address
-- that a caller of SYS1 passes (`states`).
pub mod Const
pub mod Run
pub mod Machine
use operating_system_cs.Base.{ℕ}
use operating_system_cs.Ring.{Ptr, Field}

-- `state_t`: the processor state, `s_reg` indexed by 0 to STATEREGNUM - 1.
pub record State : Type 0 where
  pub s_entry_hi : ℕ
  pub s_cause : ℕ
  pub s_status : ℕ
  pub s_pc : ℕ
  pub s_reg : ℕ → ℕ

-- `context_t`.
pub record Context : Type 0 where
  pub c_stack_ptr : ℕ
  pub c_status : ℕ
  pub c_pc : ℕ

-- The addresses that the linker chooses for static data and for functions.
pub record Layout : Type 0 where
  pub maxproc_pcbs : Ptr
  pub semd_table : Ptr
  pub device_sem : Ptr
  pub exception_handler : Ptr
  pub u_tlb_refill_handler : Ptr
  pub test : Ptr

pub record Kernel : Type 0 where
  -- `pcb_t`
  pub p_next : Field
  pub p_prev : Field
  pub p_prnt : Field
  pub p_child : Field
  pub p_next_sib : Field
  pub p_prev_sib : Field
  pub p_s : Ptr → State
  pub p_time : Field
  pub p_sem_add : Field
  pub p_support_struct : Field
  -- the head of the list of free pcbs
  pub pcb_free_h : Ptr
  -- `semd_t`
  pub s_next : Field
  pub s_sem_add : Field
  pub s_proc_q : Field
  -- the heads of the list of free descriptors and of the active semaphore list
  pub semd_free_h : Ptr
  pub semd_h : Ptr
  -- the globals of phase2/initial.c
  pub process_count : ℕ
  pub soft_block_count : ℕ
  pub ready_q : Ptr
  pub current_p : Ptr
  -- `int` cells, the saved exception state, other processor states, support structures
  pub words : Ptr → ℕ
  pub bios : State
  pub states : Ptr → State
  pub sup_except_state : Ptr → ℕ → State
  pub sup_except_context : Ptr → ℕ → Context
  -- the processor local timer and the status register
  pub timer : ℕ
  pub status : ℕ
  pub layout : Layout
