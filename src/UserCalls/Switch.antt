-- ===== src/UserCalls/Switch.antt =====
-- `syscall_handler` and `general_exception_handler` of phase3/sysSupport.c.
--
-- The cases of the switch have no break: one that returns runs on into the next one.
pub mod Breaks
use operating_system_cs.Base.{ℕ, if◌then◌else◌, ◌==◌}
use operating_system_cs.Ring.{Ptr, null}
use operating_system_cs.Kernel.Const.{a0, generalexcept, cause_exc_code}
use operating_system_cs.Support.Code.{Nucleus, Action, skip, syscall, ◌>>=◌, ◌>>◌}
use operating_system_cs.Support.Machine.{saved_state, saved_reg}
use operating_system_cs.Uproc.{program_trap_handler, terminate}
use operating_system_cs.UserCalls.{helper_return_control, get_tod}
use operating_system_cs.UserCalls.Print.{write_to_printer}
use operating_system_cs.UserCalls.Terminal.{write_to_terminal, read_from_terminal}
use operating_system_cs.Dev.{write_to_disk, read_from_disk}
use operating_system_cs.Dev.Flash.{write_to_flash, read_from_flash}
use operating_system_cs.Adl.{delay}

-- `fuel` bounds the characters that SYS13 reads.
module _ (nucleus : Nucleus) (fuel : ℕ) where
  abbrev pub from_default : Ptr → Action
  from_default sup = program_trap_handler nucleus sup null

  abbrev pub from_18 : Ptr → Action
  from_18 sup = delay nucleus sup >> from_default sup

  abbrev pub from_17 : Ptr → Action
  from_17 sup = read_from_flash nucleus sup >> helper_return_control sup >> from_18 sup

  abbrev pub from_16 : Ptr → Action
  from_16 sup = write_to_flash nucleus sup >> helper_return_control sup >> from_17 sup

  abbrev pub from_15 : Ptr → Action
  from_15 sup = read_from_disk nucleus sup >> helper_return_control sup >> from_16 sup

  abbrev pub from_14 : Ptr → Action
  from_14 sup = write_to_disk nucleus sup >> helper_return_control sup >> from_15 sup

  abbrev pub from_13 : Ptr → Action
  from_13 sup = read_from_terminal nucleus fuel sup >> helper_return_control sup >> from_14 sup

  abbrev pub from_12 : Ptr → Action
  from_12 sup = write_to_terminal nucleus sup >> helper_return_control sup >> from_13 sup

  abbrev pub from_11 : Ptr → Action
  from_11 sup = write_to_printer nucleus sup >> helper_return_control sup >> from_12 sup

  abbrev pub from_10 : Ptr → Action
  from_10 sup = get_tod sup >> helper_return_control sup >> from_11 sup

  abbrev pub from_9 : Ptr → Action
  from_9 sup = terminate nucleus sup >> from_10 sup

  -- The switch of `syscall_handler` on the number `n`.
  unfoldable pub user_switch : ℕ → Ptr → Action
  user_switch n sup =
      if n == 9
      then from_9 sup
      else if n == 10
      then from_10 sup
      else if n == 11
      then from_11 sup
      else if n == 12
      then from_12 sup
      else if n == 13
      then from_13 sup
      else if n == 14
      then from_14 sup
      else if n == 15
      then from_15 sup
      else if n == 16
      then from_16 sup
      else if n == 17
      then from_17 sup
      else if n == 18
      then from_18 sup
      else from_default sup

  -- `syscall_handler`
  unfoldable pub user_syscall_handler : Ptr → Action
  user_syscall_handler sup = do n ← saved_reg sup a0; user_switch n sup

  -- `general_exception_handler`
  unfoldable pub general_exception_handler : Action
  general_exception_handler = do
    sup ← syscall nucleus 8 0 0 0
    st ← saved_state sup generalexcept
    if cause_exc_code st.s_cause == 8 then user_syscall_handler sup else skip
    program_trap_handler nucleus sup null
