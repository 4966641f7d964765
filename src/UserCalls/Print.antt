-- ===== src/UserCalls/Print.antt =====
-- `WRITE_TO_PRINTER` of phase3/sysSupport.c.
pub mod Ready
pub mod Paper
use operating_system_cs.Base.{ℕ, zero, suc, ◌+◌, if◌then◌else◌, ◌==◌, not, add32, sub32}
use operating_system_cs.Ring.{Ptr}
use operating_system_cs.Kernel.Const.{v0, a1, a2, dev_addr_base}
use operating_system_cs.Support.Const.{d_command, d_data0, prntint, ready, str_max}
use operating_system_cs.Support.Code.{Nucleus, Code, Action, pure, skip, get, no_fuel, ◌>>=◌, ◌>>◌}
use operating_system_cs.Support.Machine.{
  set_cell, interrupts_off, interrupts_on, passern, verho, iowait, dev_mutex, slt, saved_reg,
  set_saved_reg,
}
use operating_system_cs.UserCalls.{check_string}

module _ (nucleus : Nucleus) where
  -- One character: the status of the device behind it.
  unfoldable pub print_char : (sup : Ptr) → (dev i : ℕ) → Code ℕ
  print_char sup dev i = do
    interrupts_off
    text ← saved_reg sup a1
    c ← get (λ s. s.chars (add32 text i))
    set_cell (d_data0 (dev_addr_base prntint dev)) c
    set_cell (d_command (dev_addr_base prntint dev)) 2
    st ← iowait nucleus prntint dev 0
    interrupts_on
    pure st

  -- The loop, with the values of `i` and `devStatus`, which it also returns.
  unfoldable pub print_loop : ℕ → (sup : Ptr) → (dev i dev_status : ℕ) → Code (ℕ × ℕ)
  print_loop zero sup dev i dev_status = λ _. no_fuel
  print_loop (suc fuel) sup dev i dev_status =
      let rest = print_loop fuel sup dev (i + 1) in
      do
        length ← saved_reg sup a2
        if slt i length
            then (do
              st ← print_char sup dev i
              if not (st == ready)
                  then (do set_saved_reg sup v0 (sub32 0 st); pure (i, st))
                  else rest st)
            else pure (i, dev_status)

  -- `WRITE_TO_PRINTER`
  unfoldable pub write_to_printer : Ptr → Action
  write_to_printer sup = do
    own ← get (λ s. s.sup_asid sup)
    let dev = sub32 own 1
    check_string nucleus sup
    m ← dev_mutex nucleus prntint dev 0
    passern nucleus m
    unset ← get (λ s. s.junk)
    end ← print_loop (str_max + 1) sup dev 0 unset
    if end.1 == ready then set_saved_reg sup v0 end.0 else set_saved_reg sup v0 (sub32 0 end.1)
    verho nucleus m
    skip
