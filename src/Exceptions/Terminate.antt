-- ===== src/Exceptions/Terminate.antt =====
-- `helper_terminate_process` of phase2/exceptions.c. The recursion over the progeny and the loop over
-- the children run on fuel; each of them takes one pcb out of a tree of at most MAXPROC pcbs.
use operating_system_cs.Base.{
  ℕ, zero, suc, Bool, ◌==◌, if◌then◌else◌, ltb, ◌||◌, is_neg, add32, sub32, ◌*◌,
}
use operating_system_cs.Ring.{Ptr, null}
use operating_system_cs.Kernel.{Kernel}
use operating_system_cs.Kernel.Const.{maxproc, int_elem, pseudo_clock_idx}
use operating_system_cs.Kernel.Run.{Cmd, out_of_fuel, pure, read, modify, ◌>>=◌, ◌>>◌}
use operating_system_cs.Kernel.Machine.{get_word, set_word}
use operating_system_cs.Pcb.Defs.{free_pcb, out_proc_q}
use operating_system_cs.Pcb.Tree.{remove_child, out_child}
use operating_system_cs.Asl.Defs.{get_sem_add, out_blocked}

-- Whether `p_semAdd` lies outside `device_sem`.
abbrev pub not_device_sem : Kernel → Ptr → Bool
not_device_sem k a =
    ltb a (int_elem k.layout.device_sem 0) || ltb (int_elem k.layout.device_sem pseudo_clock_idx) a

-- The terminated process leaves the queue of its semaphore.
unfoldable pub leave_semaphore : Ptr → Cmd (Unit {0})
leave_semaphore p = do
  sem_add ← get_sem_add p
  other ← read (λ k. not_device_sem k sem_add)
  if other
      then (do
        process_unblocked ← out_blocked p
        if process_unblocked == null then pure tt else do
          sem_add' ← get_sem_add p
          v ← get_word sem_add'
          if is_neg v then set_word sem_add' (add32 v 1) else pure tt)
      else (do
        process_unblocked ← out_blocked p
        if process_unblocked == null
            then pure tt
            else modify (λ k. record k { soft_block_count = sub32 k.soft_block_count 1 }))

-- The end of `helper_terminate_process`, when no child is left.
unfoldable pub terminate_one : Ptr → Cmd (Unit {0})
terminate_one p = do
  _ ← out_child p
  leave_semaphore p
  tp ← read (λ k. k.ready_q)
  (_, tp') ← out_proc_q tp p
  modify (λ k. record k { ready_q = tp' })
  free_pcb p
  modify (λ k. record k { process_count = sub32 k.process_count 1 })

unfoldable mutual
  pub terminate_on_fuel : ℕ → Ptr → Cmd (Unit {0})
  terminate_on_fuel zero p = λ _. out_of_fuel
  terminate_on_fuel (suc fuel) p = do terminate_children fuel p; terminate_one p

  -- `while(childToBeTerminate != NULL)`, with the call that gives the next child.
  pub terminate_children : ℕ → Ptr → Cmd (Unit {0})
  terminate_children zero p = λ _. out_of_fuel
  terminate_children (suc fuel) p =
      let child_first = terminate_on_fuel fuel in
      let rest = terminate_children fuel p in
      do child ← remove_child p; if child == null then pure tt else (do child_first child; rest)

unfoldable pub helper_terminate_process : Ptr → Cmd (Unit {0})
helper_terminate_process = terminate_on_fuel (2 * maxproc)
