-- ===== src/Dispatch.antt =====
-- `exception_handler` of phase2/exceptions.c.
use operating_system_cs.Base.{ℕ, ◌==◌, if◌then◌else◌, leb}
use operating_system_cs.Kernel.Const.{cause_exc_code, pgfaultexcept, generalexcept}
use operating_system_cs.Kernel.Run.{Cmd, pure, ◌>>=◌}
use operating_system_cs.Kernel.Machine.{get_bios}
use operating_system_cs.Exceptions.Defs.{pass_up_or_die, syscall_handler}
use operating_system_cs.Interrupts.Defs.{interrupt_exception_handler}

-- The `switch` over the exception code: 0 is an interrupt, 1 to 3 are TLB exceptions, 8 is a system
-- call, 4 to 7 and 9 to 12 are program traps.
unfoldable pub exc_code_switch : ℕ → Cmd (Unit {0})
exc_code_switch code =
    if code == 0
    then interrupt_exception_handler
    else if leb code 3
    then pass_up_or_die pgfaultexcept
    else if leb code 7
    then pass_up_or_die generalexcept
    else if code == 8
    then syscall_handler
    else if leb code 12
    then pass_up_or_die generalexcept
    else pure tt

unfoldable pub exception_handler : Cmd (Unit {0})
exception_handler = do s ← get_bios; exc_code_switch (cause_exc_code s.s_cause)
