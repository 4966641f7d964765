-- ===== src/Scheduler/Defs.antt =====
-- `scheduler` of phase2/scheduler.c.
use operating_system_cs.Base.{◌==◌, if◌then◌else◌, gt_zero}
use operating_system_cs.Ring.{null}
use operating_system_cs.Kernel.Const.{time_slice}
use operating_system_cs.Kernel.Run.{Cmd, ldst, halt, panic, wait, pure, read, modify, ◌>>=◌, ◌>>◌}
use operating_system_cs.Kernel.Machine.{exit, set_timer, set_status, get_state, current}
use operating_system_cs.Pcb.Defs.{remove_proc_q}

-- What `scheduler` does when no process is ready.
unfoldable pub idle : Cmd (Unit {0})
idle = do
  count ← read (λ k. k.process_count)
  soft ← read (λ k. k.soft_block_count)
  if count == 0
      then exit halt
      else if gt_zero soft
      then (do set_status 0x0000_ff01; exit wait)
      else exit panic

unfoldable pub scheduler : Cmd (Unit {0})
scheduler = do
  tp ← read (λ k. k.ready_q)
  (rm, tp') ← remove_proc_q tp
  modify (λ k. record k { ready_q = tp'; current_p = rm })
  cur ← current
  (if cur == null then idle else pure tt)
  set_timer time_slice
  cur' ← current
  s ← get_state cur'
  exit (ldst s)
