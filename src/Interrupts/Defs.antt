-- ===== src/Interrupts/Defs.antt =====
-- The operations of phase2/interrupts.c.
use operating_system_cs.Base.{
  ℕ, zero, suc, ◌+◌, ◌-◌, Bool, true, false, not, ◌==◌, if◌then◌else◌, le_zero, add32, sub32, shl,
  shr, sar, bit_and,
}
use operating_system_cs.Ring.{Ptr, null}
use operating_system_cs.Kernel.Const.{
  v0, a1, maxproc, int_elem, pseudo_clock_idx, ack, devperint, dev_sem_idx, dev_addr_base,
  int_dev_bit_map, ipbits,
}
use operating_system_cs.Kernel.Run.{Cmd, out_of_fuel, pure, read, modify, ◌>>=◌, ◌>>◌}
use operating_system_cs.Kernel.Machine.{
  get_word, set_word, set_timer, ldit, get_bios, get_bios_reg, set_bios_reg, ldst_bios, get_state,
  set_state, set_reg, current,
}
use operating_system_cs.Pcb.Defs.{insert_proc_q}
use operating_system_cs.Asl.Defs.{remove_blocked}
use operating_system_cs.Scheduler.Defs.{scheduler}
use operating_system_cs.Exceptions.Defs.{save_state, charge, wake}

unfoldable pub helper_verhogen : Cmd Ptr
helper_verhogen = do
  sema4 ← get_bios_reg a1
  v ← get_word sema4
  set_word sema4 (add32 v 1)
  v' ← get_word sema4
  if le_zero v' then wake sema4 else pure null

unfoldable pub helper_check_interrupt_line : ℕ → Cmd Bool
helper_check_interrupt_line idx = do
  s ← get_bios
  let ip_lines = shr (bit_and s.s_cause ipbits) 8
  if sar (shl ip_lines (31 - idx)) 31 == 0 then pure false else pure true

unfoldable pub helper_check_interrupt_device : (idx : ℕ) (dev_reg_add : Ptr) → Cmd Bool
helper_check_interrupt_device idx dev_reg_add = do
  dev_bits ← get_word dev_reg_add
  if sar (shl dev_bits (31 - idx)) 31 == 0 then pure false else pure true

unfoldable pub helper_unblock_process : Ptr → Cmd Ptr
helper_unblock_process semd_add = do
  unblocked_pcb ← remove_blocked semd_add
  (if not (unblocked_pcb == null)
      then modify (λ k. record k { soft_block_count = sub32 k.soft_block_count 1 })
      else pure tt)
  pure unblocked_pcb

-- The end of the handlers: `if(currentP == NULL) scheduler();` and the return to the current process.
abbrev pub return_control : {A : Type 0} → Cmd A
return_control = do cur ← current; (if cur == null then scheduler else pure tt); ldst_bios

-- What `helper_terminal_device` and `helper_non_terminal_device` both do behind the acknowledgement:
-- the V operation, and the status for the process that it unblocks.
unfoldable pub signal_device : (dev_idx saved_dev_reg_status : ℕ) → Cmd (Unit {0})
signal_device dev_idx saved_dev_reg_status = do
  sem ← read (λ k. int_elem k.layout.device_sem dev_idx)
  set_bios_reg a1 sem
  unblocked_pcb ← helper_verhogen
  (if unblocked_pcb == null then return_control else pure tt)
  modify (λ k. record k { soft_block_count = sub32 k.soft_block_count 1 })
  s ← get_state unblocked_pcb
  set_state unblocked_pcb (set_reg s v0 saved_dev_reg_status)
  return_control

-- `d_status`, `d_command`, `d_data0` and `d_data1` of a device register are words at 0, 4, 8 and 12.
unfoldable pub helper_terminal_device : (int_line_no dev_no : ℕ) (term_read : Bool) → Cmd (Unit {0})
helper_terminal_device int_line_no dev_no term_read = do
  let reg = dev_addr_base int_line_no dev_no
  status ←
      (if term_read
        then (do status ← get_word reg; set_word (add32 reg 4) ack; pure status)
        else (do status ← get_word (add32 reg 8); set_word (add32 reg 12) ack; pure status))
  signal_device (dev_sem_idx int_line_no dev_no (if term_read then 1 else 0)) status

unfoldable pub helper_non_terminal_device : (int_line_no dev_no : ℕ) → Cmd (Unit {0})
helper_non_terminal_device int_line_no dev_no = do
  let reg = dev_addr_base int_line_no dev_no
  status ← get_word reg
  set_word (add32 reg 4) ack
  signal_device (dev_sem_idx int_line_no dev_no 0) status

unfoldable pub process_local_timer_interrupts : Cmd (Unit {0})
process_local_timer_interrupts = do
  set_timer 5000
  cur ← current
  (if not (cur == null) then save_state cur else pure tt)
  charge
  tp ← read (λ k. k.ready_q)
  tp' ← insert_proc_q tp cur
  modify (λ k. record k { ready_q = tp' })
  scheduler

-- `while(unblocked_pcb != NULL)`; a process is unblocked in each round.
unfoldable pub unblock_all : ℕ → (sem unblocked_pcb : Ptr) → Cmd (Unit {0})
unblock_all zero sem unblocked_pcb = λ _. out_of_fuel
unblock_all (suc fuel) sem unblocked_pcb =
    let rest = unblock_all fuel sem in
    if unblocked_pcb == null then pure tt else (do
      tp ← read (λ k. k.ready_q)
      tp' ← insert_proc_q tp unblocked_pcb
      modify (λ k. record k { ready_q = tp' })
      next ← helper_unblock_process sem
      rest next)

-- The loop with the call before it.
abbrev pub unblock_waiting : ℕ → Ptr → Cmd (Unit {0})
unblock_waiting fuel sem = do
  unblocked_pcb ← helper_unblock_process sem
  unblock_all fuel sem unblocked_pcb

unfoldable pub pseudo_clock_interrupts : Cmd (Unit {0})
pseudo_clock_interrupts = do
  ldit 100000
  sem ← read (λ k. int_elem k.layout.device_sem pseudo_clock_idx)
  unblock_waiting (maxproc + 1) sem
  set_word sem 0
  return_control

-- The last `n` rounds of the loop over the devices of a line; `dev_no` is the next device.
unfoldable pub device_loop : (n dev_no int_line_no : ℕ) → Cmd (Unit {0})
device_loop zero dev_no int_line_no = pure tt
device_loop (suc n) dev_no int_line_no =
    let rest = device_loop n (dev_no + 1) int_line_no in
    do
      dev_int_bool ← helper_check_interrupt_device dev_no (int_dev_bit_map int_line_no)
      (if dev_int_bool
          then (if not (int_line_no == 7)
              then helper_non_terminal_device int_line_no dev_no
              else (do
                status ← get_word (dev_addr_base int_line_no dev_no)
                helper_terminal_device int_line_no dev_no (bit_and status 0xFF == 5)))
          else pure tt)
      rest

unfoldable pub non_timer_interrupts : ℕ → Cmd (Unit {0})
non_timer_interrupts int_line_no = device_loop devperint 0 int_line_no

-- The `switch` over the line. A case without a `break` runs on into the next.
unfoldable pub line_switch : ℕ → Cmd (Unit {0})
line_switch line_num =
    if line_num == 0
    then pure tt
    else if line_num == 1
    then (do process_local_timer_interrupts; pseudo_clock_interrupts; non_timer_interrupts line_num)
    else if line_num == 2
    then (do pseudo_clock_interrupts; non_timer_interrupts line_num)
    else non_timer_interrupts line_num

-- The last `n` rounds of the loop over the lines.
unfoldable pub line_loop : (n line_num : ℕ) → Cmd (Unit {0})
line_loop zero line_num = pure tt
line_loop (suc n) line_num =
    let rest = line_loop n (line_num + 1) in
    do
      line_int_bool ← helper_check_interrupt_line line_num
      (if line_int_bool then line_switch line_num else pure tt)
      rest

unfoldable pub interrupt_exception_handler : Cmd (Unit {0})
interrupt_exception_handler = do line_loop 8 0; return_control
