-- ===== src/UserCalls/Terminal.antt =====
-- `WRITE_TO_TERMINAL` and `READ_FROM_TERMINAL` of phase3/sysSupport.c.
use operating_system_cs.Base.{
  ℕ, zero, suc, ◌+◌, if◌then◌else◌, ◌==◌, not, upd, add32, sub32, shl, shr, bit_and,
}
use operating_system_cs.Ring.{Ptr}
use operating_system_cs.Kernel.Const.{v0, a1, a2, dev_addr_base}
use operating_system_cs.Support.Const.{t_transm_command, t_recv_command, termint, str_max, new_line}
use operating_system_cs.Support.Code.{
  Nucleus, Code, Action, pure, skip, get, put, no_fuel, ◌>>=◌, ◌>>◌,
}
use operating_system_cs.Support.Machine.{
  set_cell, interrupts_off, interrupts_on, passern, verho, iowait, dev_mutex, slt, saved_reg,
  set_saved_reg,
}
use operating_system_cs.UserCalls.{check_string}

-- The status of a sub-device, and the character that comes with it.
abbrev pub status_char : ℕ → ℕ
status_char st = bit_and st 0xFF

abbrev pub recv_char : ℕ → ℕ
recv_char st = shr (bit_and st 0xFF00) 8

module _ (nucleus : Nucleus) where
  unfoldable pub transmit_char : (sup : Ptr) → (dev i : ℕ) → Code ℕ
  transmit_char sup dev i = do
    interrupts_off
    text ← saved_reg sup a1
    c ← get (λ s. s.chars (add32 text i))
    set_cell (t_transm_command (dev_addr_base termint dev)) (add32 (shl c 8) 2)
    st ← iowait nucleus termint dev 0
    interrupts_on
    pure st

  -- The loop of `WRITE_TO_TERMINAL`, with the values of `i` and `transmStatus`.
  unfoldable pub transmit_loop : ℕ → (sup : Ptr) → (dev i transm_status : ℕ) → Code (ℕ × ℕ)
  transmit_loop zero sup dev i transm_status = λ _. no_fuel
  transmit_loop (suc fuel) sup dev i transm_status =
      let rest = transmit_loop fuel sup dev (i + 1) in
      do
        length ← saved_reg sup a2
        if slt i length
            then (do
              st ← transmit_char sup dev i
              if not (status_char st == 5)
                  then (do set_saved_reg sup v0 (sub32 0 st); pure (i, st))
                  else rest st)
            else pure (i, transm_status)

  -- `WRITE_TO_TERMINAL`
  unfoldable pub write_to_terminal : Ptr → Action
  write_to_terminal sup = do
    own ← get (λ s. s.sup_asid sup)
    let dev = sub32 own 1
    check_string nucleus sup
    m ← dev_mutex nucleus termint dev 0
    passern nucleus m
    unset ← get (λ s. s.junk)
    end ← transmit_loop (str_max + 1) sup dev 0 unset
    if status_char end.1 == 5
        then set_saved_reg sup v0 end.0
        else set_saved_reg sup v0 (sub32 0 end.1)
    verho nucleus m
    skip

  unfoldable pub receive_field : ℕ → Code ℕ
  receive_field dev = do
    interrupts_off
    set_cell (t_recv_command (dev_addr_base termint dev)) 2
    field ← iowait nucleus termint dev 1
    interrupts_on
    pure field

  -- The loop of `READ_FROM_TERMINAL`, which ends only with a newline or an error: `fuel` bounds the
  -- characters that are read. `recv_last` is the character read last.
  unfoldable pub receive_loop :
      ℕ → (sup text : Ptr) → (dev i recv_last recv_status : ℕ) → Code (ℕ × ℕ)
  receive_loop zero sup text dev i recv_last recv_status = λ _. no_fuel
  receive_loop (suc fuel) sup text dev i recv_last recv_status =
      let rest = receive_loop fuel sup text dev (i + 1) in
      if recv_last == new_line then pure (i, recv_status) else (do
        field ← receive_field dev
        put (λ s. record s { chars = upd s.chars (add32 text i) (recv_char field) })
        if not (status_char field == 5)
            then (do
              set_saved_reg sup v0 (sub32 0 (status_char field))
              pure (i + 1, status_char field))
            else rest (recv_char field) (status_char field))

  -- `READ_FROM_TERMINAL`
  unfoldable pub read_from_terminal : (fuel : ℕ) → Ptr → Action
  read_from_terminal fuel sup = do
    own ← get (λ s. s.sup_asid sup)
    let dev = sub32 own 1
    check_string nucleus sup
    m ← dev_mutex nucleus termint dev 1
    passern nucleus m
    text ← saved_reg sup a1
    unset ← get (λ s. s.junk)
    end ← receive_loop fuel sup text dev 0 0x61 unset
    if end.1 == 5 then set_saved_reg sup v0 end.0 else set_saved_reg sup v0 (sub32 0 end.1)
    verho nucleus m
    skip
