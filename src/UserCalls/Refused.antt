-- ===== src/UserCalls/Refused.antt =====
-- Exceptions of a process that the support level does not serve (phase3/sysSupport.c and vmSupport.c).
use operating_system_cs.Base.{ℕ, ◌≡◌, ◌≢◌, ◌<◌, refl, ◌∷◌, arith, ◌==◌, ==-of_ne, false, sym}
use mathlib.Core.Path.{subst}
use operating_system_cs.Ring.{Ptr, null}
use operating_system_cs.Kernel.Const.{a0, cause_exc_code, generalexcept, pgfaultexcept}
use operating_system_cs.Support.{Call, Store}
use operating_system_cs.Support.Code.{
  Nucleus, Action, Out, never_back, back, done, left, crash, no_fuel, after,
}
use operating_system_cs.Support.Logic.{After, After-bind}
use operating_system_cs.Uproc.{terminate, program_trap_handler}
use operating_system_cs.Vm.Fault.{tlb_exception_handler}
use operating_system_cs.Vm.Fault.Rely.{Quiet}
use operating_system_cs.UserCalls.Release.{IsReleased, terminate-IsReleased}
use operating_system_cs.UserCalls.Switch.{
  user_switch, user_syscall_handler, general_exception_handler,
}
use operating_system_cs.UserCalls.Switch.Breaks.{Kills}

-- SYS8 returns the support structure, and changes nothing.
abbrev pub Supplies : Nucleus → Ptr → Type 0
Supplies nucleus sup = (c : Call) (s : Store) → c.number ≡ 8 → nucleus c s ≡ back sup s

-- The exceptions that end a process, with the handler of each.
pub data Refused (nucleus : Nucleus) (fuel : ℕ) (sup : Ptr) (s : Store) : Action → Type 0 where
  tlb_modification :
      cause_exc_code (s.sup_except_state sup pgfaultexcept).s_cause ≡ 1
      → Refused nucleus fuel sup s (tlb_exception_handler nucleus)
  trap :
      cause_exc_code (s.sup_except_state sup generalexcept).s_cause ≢ 8
      → Refused nucleus fuel sup s (general_exception_handler nucleus fuel)
  unknown_call :
      cause_exc_code (s.sup_except_state sup generalexcept).s_cause ≡ 8
      → 18 < (s.sup_except_state sup generalexcept).s_reg a0
      → Refused nucleus fuel sup s (general_exception_handler nucleus fuel)
  terminate_call :
      cause_exc_code (s.sup_except_state sup generalexcept).s_cause ≡ 8
      → (s.sup_except_state sup generalexcept).s_reg a0 ≡ 9
      → Refused nucleus fuel sup s (general_exception_handler nucleus fuel)

-- The process has ended, and has given back what it had.
abbrev pub Ends : Ptr → Store → Out (Unit {0}) → Type 0
Ends sup s o = After (λ _ _. ⊥) (λ d s'. (d ≡ never_back) × IsReleased sup s s') o

user_switch-unknown :
    (nucleus : Nucleus) (fuel n : ℕ) (sup : Ptr)
    → 18 < n
    → user_switch nucleus fuel n sup ≡ program_trap_handler nucleus sup null
unfolding user_switch
user_switch-unknown nucleus fuel n sup lt =
    let no_case : (k : ℕ) → k < 19 → (n == k) ≡ false = λ k l. ==-of_ne n k (omega arith) in
    simp (
      no_case 9 (omega arith),
      no_case 10 (omega arith),
      no_case 11 (omega arith),
      no_case 12 (omega arith),
      no_case 13 (omega arith),
      no_case 14 (omega arith),
      no_case 15 (omega arith),
      no_case 16 (omega arith),
      no_case 17 (omega arith),
      no_case 18 (omega arith),
    )

module _ (nucleus : Nucleus) (sup : Ptr) (s : Store) (kills : Kills nucleus)
    (quiet : Quiet nucleus sup) (supplies : Supplies nucleus sup) where
  -- The memory behind SYS8.
  abbrev supplied : Store
  supplied = record s { calls = record { number = 8; arg1 = 0; arg2 = 0; arg3 = 0 } ∷ s.calls }

  sys8 : nucleus (record { number = 8; arg1 = 0; arg2 = 0; arg3 = 0 }) supplied ≡ back sup supplied
  sys8 = supplies (record { number = 8; arg1 = 0; arg2 = 0; arg3 = 0 }) supplied refl

  supplied-Ends : (o : Out (Unit {0})) → Ends sup supplied o → Ends sup s o
  supplied-Ends (done a u) h = absurd h
  supplied-Ends (left d u) h = (h.0, record { frames = h.1.frames; pages = h.1.pages })
  supplied-Ends crash h = absurd h
  supplied-Ends no_fuel h = absurd h

  terminate-Ends : Ends sup s (terminate nucleus sup supplied)
  terminate-Ends =
      supplied-Ends (terminate nucleus sup supplied)
        (terminate-IsReleased nucleus sup supplied kills quiet)

  trap-Ends : Ends sup s (program_trap_handler nucleus sup null supplied)
  unfolding program_trap_handler
  trap-Ends = terminate-Ends

  -- What follows the end of a process does not run.
  then_Ends : (o : Out (Unit {0})) (m : Action) → Ends sup s o → Ends sup s (after o (λ _. m))
  then_Ends o m h = After-bind (λ _ _. ⊥) (λ _ _. ⊥) _ o (λ _. m) h (λ _ _ z. absurd z)

  call-Ends :
      (fuel : ℕ)
      → cause_exc_code (s.sup_except_state sup generalexcept).s_cause ≡ 8
      → Ends sup s
          (user_switch nucleus fuel ((s.sup_except_state sup generalexcept).s_reg a0) sup supplied)
      → Ends sup s (general_exception_handler nucleus fuel s)
  unfolding general_exception_handler user_syscall_handler
  call-Ends fuel e h =
      simp (sys8, e)
        (then_Ends
          (user_switch nucleus fuel ((s.sup_except_state sup generalexcept).s_reg a0) sup supplied)
          _ h)

  -- A TLB-Modification exception, a general exception that is no system call, a system call with a
  -- number above 18 and SYS9 end the process with SYS2. By then all frames of the process are
  -- unoccupied, those of other processes are as they were, and no entry of its page table is valid.
  -- SYS8 returns the support structure, SYS2 does not return, SYS3 and SYS4 do, and other processes
  -- change neither the swap pool nor make entries valid.
  pub Refused-IsReleased : (fuel : ℕ) (m : Action) → Refused nucleus fuel sup s m → Ends sup s (m s)
  unfolding tlb_exception_handler general_exception_handler user_switch
  Refused-IsReleased fuel m (tlb_modification e) =
      simp (sys8, e) (then_Ends (program_trap_handler nucleus sup null supplied) _ trap-Ends)
  Refused-IsReleased fuel m (trap e) = simp (sys8, ==-of_ne _ _ e) trap-Ends
  Refused-IsReleased fuel m (unknown_call e lt) = call-Ends fuel e (
      subst (λ (a : Action). Ends sup s (a supplied))
        (sym (user_switch-unknown nucleus fuel _ sup lt)) trap-Ends)
  Refused-IsReleased fuel m (terminate_call e n) =
      call-Ends fuel e (simp n (then_Ends (terminate nucleus sup supplied) _ terminate-Ends))
