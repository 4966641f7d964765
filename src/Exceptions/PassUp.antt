-- ===== src/Exceptions/PassUp.antt =====
-- `pass_up_or_die` and the calls from user mode (phase2/exceptions.c).
use operating_system_cs.Base.{
  ℕ, ◌≡◌, ◌≢◌, refl, ◌==◌, ==-refl, if◌then◌else◌, sle, bit_and, bit_or, Bool-cases, inl, inr,
  false, arith,
}
use operating_system_cs.Ring.{Ptr, null}
use operating_system_cs.Kernel.{State, Kernel}
use operating_system_cs.Kernel.Const.{a0, generalexcept}
use operating_system_cs.Kernel.Run.{Exit, Leaves, Leaves-mono, ldcxt, ne_null}
use operating_system_cs.Exceptions.Copy.{SameState, deep_copy_state_t-SameState}
use operating_system_cs.Exceptions.Defs.{pass_up_or_die, syscall_handler, check_ku_mode_bit}

-- The handler of the support level gets control with the context that `sup` holds for `i`, and finds
-- the state `s` there. Apart from the saved states nothing has changed.
abbrev pub PassedUp : Kernel → (sup : Ptr) (i : ℕ) → State → Exit → Kernel → Type 0
PassedUp k sup i s e k' =
    let c = k.sup_except_context sup i in
    (e ≡ ldcxt c.c_stack_ptr c.c_status c.c_pc)
    × SameState (k'.sup_except_state sup i) s
    × (k' ≡ record k { bios = k'.bios; sup_except_state = k'.sup_except_state })

-- An exception of a running process that has a support structure is passed up to the handler for
-- its kind.
pub pass_up_or_die-PassedUp :
    (k : Kernel) (i : ℕ)
    → k.current_p ≢ null
    → k.p_support_struct k.current_p ≢ null
    → Leaves (PassedUp k (k.p_support_struct k.current_p) i k.bios) (pass_up_or_die i k)
unfolding pass_up_or_die
pass_up_or_die-PassedUp k i cur sup =
    simp (ne_null k.current_p cur, ne_null (k.p_support_struct k.current_p) sup)
      (
        refl,
        simp (==-refl (k.p_support_struct k.current_p), ==-refl i)
            (deep_copy_state_t-SameState (k.sup_except_state (k.p_support_struct k.current_p) i)
              k.bios),
        refl,
      )

-- The state of a process that has made a call in user mode: the numbers up to 8 become a reserved
-- instruction.
abbrev pub reserved : State → State
reserved s =
    if sle (s.s_reg a0) 8
    then record s { s_cause = bit_and (bit_or s.s_cause 0x28) 0xFFFF_FFEB }
    else s

-- For a running process with a support structure no system call is served in user mode, whatever
-- its number: the call is passed up as a general exception.
pub syscall_handler-user_mode :
    (k : Kernel)
    → bit_and k.bios.s_status 0x8 ≢ 0
    → k.current_p ≢ null
    → k.p_support_struct k.current_p ≢ null
    → Leaves
        (PassedUp k (k.p_support_struct k.current_p) generalexcept (reserved k.bios))
        (syscall_handler k)
unfolding syscall_handler check_ku_mode_bit
syscall_handler-user_mode k user cur sup = elim (Bool-cases (sle (k.bios.s_reg a0) 8)) [
  | inl e ↦
      simp (user_bit, e)
        (Leaves-mono _ _ (pass_up_or_die generalexcept k1)
          (pass_up_or_die-PassedUp k1 generalexcept cur sup) λ x k' h. (h.0, h.1, h.2))
  | inr e ↦ simp (user_bit, e) (pass_up_or_die-PassedUp k generalexcept cur sup)
]
  where
    user_bit : (bit_and k.bios.s_status 0x8 == 0) ≡ false
    user_bit = ground (arith, user)

    k1 : Kernel
    k1 = record k {
      bios = record k.bios { s_cause = bit_and (bit_or k.bios.s_cause 0x28) 0xFFFF_FFEB };
    }
