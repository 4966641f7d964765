-- ===== src/UserCalls.antt =====
-- phase3/sysSupport.c: the system calls of user processes and the handler of general exceptions.
pub mod Print
pub mod Terminal
pub mod Switch
pub mod Release
pub mod Refused
use operating_system_cs.Base.{◌&&◌, ◌||◌, Bool, ℕ, if◌then◌else◌, ◌+◌, not, add32, ltb}
use operating_system_cs.Ring.{Ptr, null}
use operating_system_cs.Kernel.Const.{v0, a1, a2, generalexcept}
use operating_system_cs.Kernel.{State}
use operating_system_cs.Support.Const.{kuseg, last_user_page, uproc_stack_area, blocksize, str_max}
use operating_system_cs.Support.Code.{Nucleus, Action, skip, ◌>>=◌, ◌>>◌}
use operating_system_cs.Support.Machine.{
  stck, ldst, slt, saved_state, saved_reg, set_saved, set_saved_reg,
}
use operating_system_cs.Uproc.{program_trap_handler}

-- `helper_check_string_outside_addr_space`: the constants are unsigned, and so are the comparisons.
unfoldable pub helper_check_string_outside_addr_space : Ptr → Bool
helper_check_string_outside_addr_space a =
    (ltb a kuseg || ltb (last_user_page + blocksize) a)
    && (ltb a uproc_stack_area || ltb (uproc_stack_area + blocksize) a)

-- `helper_return_control`
unfoldable pub helper_return_control : Ptr → Action
helper_return_control sup = do
  st ← saved_state sup generalexcept
  let next : State = record st { s_pc = add32 st.s_pc 4 }
  set_saved sup generalexcept next
  ldst next

-- `GET_TOD`
unfoldable pub get_tod : Ptr → Action
get_tod sup = do now ← stck; set_saved_reg sup v0 now

module _ (nucleus : Nucleus) where
  -- The check at the start of SYS11, SYS12 and SYS13.
  unfoldable pub check_string : Ptr → Action
  check_string sup = do
    address ← saved_reg sup a1
    length ← saved_reg sup a2
    if helper_check_string_outside_addr_space address || slt length 0 || slt str_max length
        then program_trap_handler nucleus sup null
        else skip
