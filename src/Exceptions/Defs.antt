-- ===== src/Exceptions/Defs.antt =====
-- The system calls and the dispatch of exceptions of phase2/exceptions.c.
use operating_system_cs.Base.{
  ℕ, ◌==◌, if◌then◌else◌, not, ◌&&◌, is_neg, le_zero, sle, add32, sub32, bit_and, bit_or, upd,
}
use operating_system_cs.Ring.{Ptr, null}
use operating_system_cs.Kernel.Const.{
  v0, a0, a1, a2, a3, wordlen, int_elem, pseudo_clock_idx, generalexcept, dev_sem_idx,
}
use operating_system_cs.Kernel.Run.{Cmd, ldcxt, pure, read, modify, load, ◌>>=◌, ◌>>◌}
use operating_system_cs.Kernel.Machine.{
  exit, get_word, set_word, get_timer, get_bios, get_bios_reg, set_bios_reg, ldst_bios, get_state,
  set_state, get_time, set_time, get_support, set_support, current,
}
use operating_system_cs.Pcb.Defs.{alloc_pcb, insert_proc_q}
use operating_system_cs.Pcb.Tree.{insert_child}
use operating_system_cs.Asl.Defs.{insert_blocked, remove_blocked}
use operating_system_cs.Scheduler.Defs.{scheduler}
use operating_system_cs.Exceptions.Copy.{deep_copy_state_t}
use operating_system_cs.Exceptions.Terminate.{helper_terminate_process}

unfoldable pub helper_passeren : Ptr → Cmd (Unit {0})
helper_passeren sema4 = do
  v ← get_word sema4
  set_word sema4 (sub32 v 1)
  v' ← get_word sema4
  if is_neg v' then (do cur ← current; _ ← insert_blocked sema4 cur; pure tt) else pure tt

-- `((state_PTR)BIOSDATAPAGE)->s_pc += WORDLEN`
abbrev pub skip_syscall : Cmd (Unit {0})
skip_syscall = modify (λ k. record k { bios = record k.bios { s_pc = add32 k.bios.s_pc wordlen } })

-- `deep_copy_state_t(&(p->p_s), BIOSDATAPAGE)`
abbrev pub save_state : Ptr → Cmd (Unit {0})
save_state p = do dest ← get_state p; src ← get_bios; set_state p (deep_copy_state_t dest src)

-- `currentP->p_time += (5000 - getTIMER())`
abbrev pub charge : Cmd (Unit {0})
charge = do
  cur ← current
  time ← get_time cur
  left ← get_timer
  set_time cur (add32 time (sub32 5000 left))

unfoldable pub helper_blocking_syscall_handler : Cmd (Unit {0})
helper_blocking_syscall_handler = do skip_syscall; cur ← current; save_state cur; charge; scheduler

unfoldable pub helper_non_blocking_syscall_handler : Cmd (Unit {0})
helper_non_blocking_syscall_handler = do skip_syscall; charge; ldst_bios

unfoldable pub check_ku_mode_bit : Cmd ℕ
check_ku_mode_bit = do s ← get_bios; if bit_and s.s_status 0x8 == 0 then pure 0 else pure 1

unfoldable pub createprocess : Cmd (Unit {0})
createprocess = do
  new_process ← alloc_pcb
  if new_process == null then set_bios_reg v0 0xFFFF_FFFF else do
    statep ← get_bios_reg a1
    src ← load (λ k. k.states) statep
    dest ← get_state new_process
    set_state new_process (deep_copy_state_t dest src)
    supportp ← get_bios_reg a2
    set_support new_process
        (if not (supportp == null) && not (supportp == 0) then supportp else null)
    tp ← read (λ k. k.ready_q)
    tp' ← insert_proc_q tp new_process
    modify (λ k. record k { ready_q = tp' })
    cur ← current
    insert_child cur new_process
    set_bios_reg v0 0
    modify (λ k. record k { process_count = add32 k.process_count 1 })

unfoldable pub terminateprocess : Cmd (Unit {0})
terminateprocess = do cur ← current; helper_terminate_process cur; scheduler

unfoldable pub passeren : Cmd (Unit {0})
passeren = do
  sema4 ← get_bios_reg a1
  v ← get_word sema4
  set_word sema4 (sub32 v 1)
  v' ← get_word sema4
  (if is_neg v'
      then (do cur ← current; _ ← insert_blocked sema4 cur; helper_blocking_syscall_handler)
      else pure tt)
  helper_non_blocking_syscall_handler

-- What `VERHOGEN` does behind the increment: the first pcb that is blocked on the semaphore becomes
-- ready.
unfoldable pub wake : Ptr → Cmd Ptr
wake sema4 = do
  process_unblocked ← remove_blocked sema4
  if process_unblocked == null then pure null else do
    tp ← read (λ k. k.ready_q)
    tp' ← insert_proc_q tp process_unblocked
    modify (λ k. record k { ready_q = tp' })
    pure process_unblocked

unfoldable pub verhogen : Cmd Ptr
verhogen = do
  sema4 ← get_bios_reg a1
  v ← get_word sema4
  set_word sema4 (add32 v 1)
  v' ← get_word sema4
  if le_zero v' then wake sema4 else pure null

-- `softBlock_count++`
abbrev pub soft_block : Cmd (Unit {0})
soft_block = modify (λ k. record k { soft_block_count = add32 k.soft_block_count 1 })

unfoldable pub waitio : Cmd (Unit {0})
waitio = do
  line ← get_bios_reg a1
  dev ← get_bios_reg a2
  term_read ← get_bios_reg a3
  sem ← read (λ k. int_elem k.layout.device_sem (dev_sem_idx line dev term_read))
  helper_passeren sem
  soft_block

unfoldable pub getcputime : Cmd (Unit {0})
getcputime = do
  cur ← current
  time ← get_time cur
  left ← get_timer
  set_bios_reg v0 (sub32 (add32 time 5000) left)

unfoldable pub waitclock : Cmd (Unit {0})
waitclock = do
  sem ← read (λ k. int_elem k.layout.device_sem pseudo_clock_idx)
  helper_passeren sem
  soft_block

unfoldable pub getsupportptr : Cmd (Unit {0})
getsupportptr = do cur ← current; sup ← get_support cur; set_bios_reg v0 sup

unfoldable pub pass_up_or_die : ℕ → Cmd (Unit {0})
pass_up_or_die exception_constant = do
  cur ← current
  sup ← get_support cur
  if sup == null then (do helper_terminate_process cur; scheduler) else (do
    dest ← read (λ k. k.sup_except_state sup exception_constant)
    src ← get_bios
    modify (λ k. record k {
      sup_except_state =
          upd k.sup_except_state sup
            (upd (k.sup_except_state sup) exception_constant (deep_copy_state_t dest src));
    })
    c ← read (λ k. k.sup_except_context sup exception_constant)
    exit (ldcxt c.c_stack_ptr c.c_status c.c_pc))

-- The cases of the `switch` of `SYSCALL_handler`. A case without a `break` runs on into the next.
unfoldable pub case_default : Cmd (Unit {0})
case_default = pass_up_or_die generalexcept

unfoldable pub case_8 : Cmd (Unit {0})
case_8 = do getsupportptr; helper_non_blocking_syscall_handler; case_default

unfoldable pub case_7 : Cmd (Unit {0})
case_7 = do waitclock; helper_blocking_syscall_handler; case_8

unfoldable pub case_6 : Cmd (Unit {0})
case_6 = do getcputime; helper_non_blocking_syscall_handler; case_7

unfoldable pub case_5 : Cmd (Unit {0})
case_5 = do waitio; helper_blocking_syscall_handler; case_6

unfoldable pub case_4 : Cmd (Unit {0})
case_4 = do _ ← verhogen; helper_non_blocking_syscall_handler; case_5

unfoldable pub case_1 : Cmd (Unit {0})
case_1 = do createprocess; helper_non_blocking_syscall_handler; terminateprocess

unfoldable pub syscall_switch : ℕ → Cmd (Unit {0})
syscall_switch n =
    if n == 1
    then case_1
    else if n == 2
    then terminateprocess
    else if n == 3
    then passeren
    else if n == 4
    then case_4
    else if n == 5
    then case_5
    else if n == 6
    then case_6
    else if n == 7
    then case_7
    else if n == 8
    then case_8
    else case_default

unfoldable pub syscall_handler : Cmd (Unit {0})
syscall_handler = do
  user ← check_ku_mode_bit
  number ← get_bios_reg a0
  if not (user == 0)
      then (do
        (if sle number 8
            then (do
              modify
                  (λ k. record k { bios = record k.bios { s_cause = bit_or k.bios.s_cause 0x28 } })
              modify (λ k. record k {
                bios = record k.bios { s_cause = bit_and k.bios.s_cause 0xFFFF_FFEB };
              }))
            else pure tt)
        pass_up_or_die generalexcept)
      else syscall_switch number
