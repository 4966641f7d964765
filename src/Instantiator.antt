-- ===== src/Instantiator.antt =====
-- phase3/initProc.c: the page tables and states of the user processes, the backing store, and `test`.
pub mod Backing
pub mod PageTable
pub mod Ready
pub mod Start
use operating_system_cs.Base.{
  ℕ, zero, suc, ◌+◌, ◌-◌, ◌*◌, if◌then◌else◌, ◌==◌, upd, add32, mul32, shl, bit_and, bit_or,
}
use operating_system_cs.Ring.{Ptr, null}
use operating_system_cs.Kernel.{State, Context}
use operating_system_cs.Kernel.Const.{
  t9, sp, pagesize, iepbiton, tebiton, ipbits, kupbitoff, pgfaultexcept, generalexcept, int_elem,
  array_elem,
}
use operating_system_cs.Kernel.Machine.{set_reg}
use operating_system_cs.Support.{Store}
use operating_system_cs.Support.Const.{
  kuseg, asid_shift, uproc_stack_area, page_table_size, pte_elem, uprocstartaddr, uprocstack,
  stack_tlb_top, stack_gen_top, delay_sem, support_size, uproc_num, minus_one,
}
use operating_system_cs.Support.Code.{Nucleus, Code, Action, skip, get, put, syscall, ◌>>=◌, ◌>>◌}
use operating_system_cs.Support.Machine.{set_cell, passern}
use operating_system_cs.Vm.{init_swap_struct}
use operating_system_cs.Vm.Fault.{absent_lo}
use operating_system_cs.Adl.Init.{init_adl}
use operating_system_cs.Instantiator.Backing.{set_up_backing_store}

-- `KUSEG + (i * PAGESIZE) + (asid << ASID_SHIFT)`, and the entry of the stack page.
abbrev pub user_entry_hi : (asid i : ℕ) → ℕ
user_entry_hi a i = add32 (add32 kuseg (mul32 i pagesize)) (shl a asid_shift)

abbrev pub stack_entry_hi : ℕ → ℕ
stack_entry_hi a = add32 uproc_stack_area (shl a asid_shift)

-- The first `n` rounds of the loop of `init_Uproc_pgTable`.
unfoldable pub set_entries : ℕ → Ptr → Store → Store
set_entries zero sup s = s
set_entries (suc n) sup s =
    let rest = set_entries n sup s in
    let e = pte_elem sup n in
    record rest {
      entry_hi = upd rest.entry_hi e (user_entry_hi (rest.sup_asid sup) n);
      entry_lo = upd rest.entry_lo e absent_lo;
    }

-- `init_Uproc_pgTable`
unfoldable pub init_uproc_pg_table : Ptr → Action
init_uproc_pg_table sup = do
  put (set_entries page_table_size sup)
  put (λ s. record s {
    entry_hi =
        upd s.entry_hi (pte_elem sup (page_table_size - 1)) (stack_entry_hi (s.sup_asid sup));
  })

-- `((IEPBITON | TEBITON) | IPBITS)`
abbrev pub enabled : ℕ
enabled = bit_or (bit_or iepbiton tebiton) ipbits

-- The state in which a user process starts; other registers hold what the stack holds.
abbrev pub uproc_start : State → ℕ → State
uproc_start st a =
    let regs : State = set_reg (set_reg st t9 uprocstartaddr) sp uprocstack in
    record regs {
      s_pc = uprocstartaddr;
      s_status = bit_or enabled 0x8;
      s_entry_hi = shl a asid_shift;
    }

-- The two contexts to which the nucleus passes exceptions up.
abbrev pub pass_up_context : (handler stack : Ptr) → Context
pass_up_context handler stack = record {
  c_stack_ptr = stack;
  c_status = bit_and enabled kupbitoff;
  c_pc = handler;
}

unfoldable pub set_contexts : Ptr → Store → Store
set_contexts sup s = record s {
  sup_except_context = upd s.sup_except_context sup (
      upd
        (upd (s.sup_except_context sup) pgfaultexcept
          (pass_up_context s.statics.tlb_exception_handler (stack_tlb_top sup)))
        generalexcept (pass_up_context s.statics.general_exception_handler (stack_gen_top sup)));
}

-- The loop of `test` that sets the device mutexes.
unfoldable pub set_mutexes : ℕ → Store → Store
set_mutexes zero s = s
set_mutexes (suc n) s =
    let rest = set_mutexes n s in
    record rest { words = upd rest.words (int_elem s.statics.mutex n) 1 }

module _ (nucleus : Nucleus) where
  -- `init_Uproc`
  unfoldable pub init_uproc : (sup : Ptr) → (asid : ℕ) → Code ℕ
  init_uproc sup a = do
    start ← get (λ s. s.statics.init_state)
    put (λ s. record s { states = upd s.states start (uproc_start (s.states start) a) })
    put (λ s. record s { sup_asid = upd s.sup_asid sup a })
    put (set_contexts sup)
    set_cell (delay_sem sup) 0
    init_uproc_pg_table sup
    syscall nucleus 1 start sup 0

  -- The loop of `test` that makes the user processes `i` to `i + n - 1`.
  unfoldable pub start_uprocs : (n i : ℕ) → Action
  start_uprocs zero i = skip
  start_uprocs (suc n) i =
      let rest = start_uprocs n (i + 1) in
      do
        sup ← get (λ s. array_elem s.statics.init_support_arr support_size (i - 1))
        st ← init_uproc sup i
        (if st == minus_one then (do syscall nucleus 2 0 0 0; skip) else skip)
        rest

  -- The loop of `test` that waits for the end of `n` user processes.
  unfoldable pub await_uprocs : ℕ → Action
  await_uprocs zero = skip
  await_uprocs (suc n) =
      let rest = await_uprocs n in
      do master ← get (λ s. s.statics.master_semaphore); passern nucleus master; rest

  -- `test`
  unfoldable pub test : Action
  test = do
    put (set_mutexes 48)
    init_swap_struct
    set_up_backing_store nucleus
    init_adl nucleus
    start_uprocs uproc_num 1
    await_uprocs uproc_num
    syscall nucleus 2 0 0 0
    skip
