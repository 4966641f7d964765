-- ===== src/Initial.antt =====
-- phase2/initial.c.
pub mod Parts
pub mod First
use operating_system_cs.Base.{ℕ, zero, suc, ◌+◌, add32, bit_and, bit_or}
use operating_system_cs.Ring.{null}
use operating_system_cs.Kernel.Const.{
  passupvector, ramstart, pagesize, device_sem_num, int_elem, clockinterval, iepbiton, kupbitoff,
  tebiton, t9, sp, rambaseaddr, rambasesize,
}
use operating_system_cs.Kernel.Run.{Cmd, pure, read, modify, ◌>>=◌, ◌>>◌}
use operating_system_cs.Kernel.Machine.{get_word, set_word, ldit, get_state, set_state, set_reg}
use operating_system_cs.Pcb.Defs.{init_pcbs, alloc_pcb, insert_proc_q, mk_empty_proc_q}
use operating_system_cs.Asl.Defs.{init_asl}
use operating_system_cs.Scheduler.Defs.{scheduler}

-- The pass up vector, four words.
unfoldable pub set_passupvector : Cmd (Unit {0})
set_passupvector = do
  l ← read (λ k. k.layout)
  set_word passupvector l.u_tlb_refill_handler
  set_word (passupvector + 4) (ramstart + pagesize)
  set_word (passupvector + 8) l.exception_handler
  set_word (passupvector + 12) (ramstart + pagesize)

-- The first `n` rounds of the loop over the device semaphores.
unfoldable pub clear_device_sem : ℕ → Cmd (Unit {0})
clear_device_sem zero = pure tt
clear_device_sem (suc n) = do
  clear_device_sem n
  sem ← read (λ k. int_elem k.layout.device_sem n)
  set_word sem 0

-- The first process starts at `test`, with the last RAM frame as its stack.
unfoldable pub first_process : Cmd (Unit {0})
unfolding mk_empty_proc_q
first_process = do
  first_pro ← alloc_pcb
  tp ← read (λ k. k.ready_q)
  tp' ← insert_proc_q tp first_pro
  modify (λ k. record k { ready_q = tp' })
  modify (λ k. record k { process_count = add32 k.process_count 1 })
  l ← read (λ k. k.layout)
  s ← get_state first_pro
  set_state first_pro (record s { s_status = bit_or (bit_and iepbiton kupbitoff) tebiton })
  s ← get_state first_pro
  set_state first_pro (record s { s_pc = l.test })
  s ← get_state first_pro
  set_state first_pro (set_reg s t9 l.test)
  rambase ← get_word rambaseaddr
  ramsize ← get_word rambasesize
  s ← get_state first_pro
  set_state first_pro (set_reg s sp (add32 rambase ramsize))

unfoldable pub main : Cmd (Unit {0})
unfolding mk_empty_proc_q
main = do
  set_passupvector
  init_asl
  init_pcbs
  modify (λ k. record k { process_count = 0; soft_block_count = 0 })
  modify (λ k. record k { ready_q = mk_empty_proc_q; current_p = null })
  clear_device_sem device_sem_num
  ldit clockinterval
  first_process
  scheduler
