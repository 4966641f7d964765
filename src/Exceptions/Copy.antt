-- ===== src/Exceptions/Copy.antt =====
-- `deep_copy_state_t` of phase2/exceptions.c (phase2/interrupts.c has the same function).
use operating_system_cs.Base.{ℕ, zero, suc, ◌<◌, ◌≡◌, refl, arith}
use operating_system_cs.Kernel.{State}
use operating_system_cs.Kernel.Const.{state_reg_num}
use operating_system_cs.Kernel.Machine.{set_reg}

-- The first `n` rounds of the loop over the registers.
unfoldable pub copy_regs : ℕ → (dest src : State) → State
copy_regs zero dest src = dest
copy_regs (suc n) dest src = let d = copy_regs n dest src in set_reg d n (src.s_reg n)

unfoldable pub deep_copy_state_t : (dest src : State) → State
deep_copy_state_t dest src =
    let d =
      copy_regs state_reg_num
        (record dest { s_cause = src.s_cause; s_entry_hi = src.s_entry_hi; s_pc = src.s_pc }) src in
    record d { s_status = src.s_status }

-- `d` and `s` agree on all that a `state_t` holds.
pub record SameState (d s : State) : Type 0 where
  pub entry_hi : d.s_entry_hi ≡ s.s_entry_hi
  pub cause : d.s_cause ≡ s.s_cause
  pub status : d.s_status ≡ s.s_status
  pub pc : d.s_pc ≡ s.s_pc
  pub regs : (i : ℕ) → i < state_reg_num → d.s_reg i ≡ s.s_reg i

copy_regs-regs : (n : ℕ) (d s : State) (i : ℕ) → i < n → (copy_regs n d s).s_reg i ≡ s.s_reg i
unfolding copy_regs
copy_regs-regs zero d s i lt = ground arith
copy_regs-regs (suc n) d s i lt = ground (arith, copy_regs-regs n d s i)

record Kept (d e : State) : Type 0 where
  entry_hi : d.s_entry_hi ≡ e.s_entry_hi
  cause : d.s_cause ≡ e.s_cause
  pc : d.s_pc ≡ e.s_pc

copy_regs-Kept : (n : ℕ) (d s : State) → Kept (copy_regs n d s) d
unfolding copy_regs
copy_regs-Kept zero d s = record { entry_hi = refl; cause = refl; pc = refl }
copy_regs-Kept (suc n) d s =
    let h = copy_regs-Kept n d s in record { entry_hi = h.entry_hi; cause = h.cause; pc = h.pc }

-- `deep_copy_state_t` copies every field and every register.
pub deep_copy_state_t-SameState : (d s : State) → SameState (deep_copy_state_t d s) s
unfolding deep_copy_state_t
deep_copy_state_t-SameState d s =
    let d1 = record d { s_cause = s.s_cause; s_entry_hi = s.s_entry_hi; s_pc = s.s_pc } in
    let h = copy_regs-Kept state_reg_num d1 s in
    record {
      entry_hi = h.entry_hi;
      cause = h.cause;
      status = refl;
      pc = h.pc;
      regs = λ i lt. copy_regs-regs state_reg_num d1 s i lt;
    }
