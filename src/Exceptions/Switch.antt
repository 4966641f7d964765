-- ===== src/Exceptions/Switch.antt =====
-- The cases of the `switch` of `SYSCALL_handler` (phase2/exceptions.c) that have no `break`.
use operating_system_cs.Base.{ℕ, ◌≡◌, refl, ap, fun_ext, ◌==◌, if◌then◌else◌, Bool-cases, inl, inr}
use operating_system_cs.Ring.{null}
use operating_system_cs.Kernel.{Kernel}
use operating_system_cs.Kernel.Run.{Cmd, and_then, ◌>>◌, ◌>>=◌}
use operating_system_cs.Scheduler.Defs.{scheduler}
use operating_system_cs.Scheduler.Ends.{Ends, scheduler-Ends}
use operating_system_cs.Exceptions.Defs.{
  helper_blocking_syscall_handler, helper_non_blocking_syscall_handler, createprocess,
  terminateprocess, passeren, verhogen, waitio, getcputime, waitclock, getsupportptr, case_default,
  case_1, case_4, case_5, case_6, case_7, case_8, syscall_switch,
}

helper_non_blocking_syscall_handler-Ends : Ends helper_non_blocking_syscall_handler
unfolding helper_non_blocking_syscall_handler
helper_non_blocking_syscall_handler-Ends n =
    fun_ext
      λ k. elim (Bool-cases (k.current_p == null)) [ inl e ↦ simp e refl | inr e ↦ simp e refl ]

Ends-at :
    (m : Cmd (Unit {0}))
    → Ends m
    → (n : Cmd (Unit {0})) (k : Kernel) → and_then (m k) (λ _. n) ≡ m k
Ends-at m h n k = ap (λ f. f k) (h n)

helper_blocking_syscall_handler-Ends : Ends helper_blocking_syscall_handler
unfolding helper_blocking_syscall_handler
helper_blocking_syscall_handler-Ends n = fun_ext λ k. elim (Bool-cases (k.current_p == null)) [
  | inl e ↦ simp e refl
  | inr e ↦ simp e (Ends-at scheduler scheduler-Ends n _)
]

-- `SYSCALL_handler` with a `break` at the end of each case.
abbrev pub switch_with_breaks : ℕ → Cmd (Unit {0})
switch_with_breaks n =
    if n == 1
    then createprocess >> helper_non_blocking_syscall_handler
    else if n == 2
    then terminateprocess
    else if n == 3
    then passeren
    else if n == 4
    then verhogen >>= (λ _. helper_non_blocking_syscall_handler)
    else if n == 5
    then waitio >> helper_blocking_syscall_handler
    else if n == 6
    then getcputime >> helper_non_blocking_syscall_handler
    else if n == 7
    then waitclock >> helper_blocking_syscall_handler
    else if n == 8
    then getsupportptr >> helper_non_blocking_syscall_handler
    else case_default

case_8-breaks : case_8 ≡ (getsupportptr >> helper_non_blocking_syscall_handler)
unfolding case_8
case_8-breaks = ap (λ m. getsupportptr >> m) (helper_non_blocking_syscall_handler-Ends case_default)

case_7-breaks : case_7 ≡ (waitclock >> helper_blocking_syscall_handler)
unfolding case_7
case_7-breaks = ap (λ m. waitclock >> m) (helper_blocking_syscall_handler-Ends case_8)

case_6-breaks : case_6 ≡ (getcputime >> helper_non_blocking_syscall_handler)
unfolding case_6
case_6-breaks = ap (λ m. getcputime >> m) (helper_non_blocking_syscall_handler-Ends case_7)

case_5-breaks : case_5 ≡ (waitio >> helper_blocking_syscall_handler)
unfolding case_5
case_5-breaks = ap (λ m. waitio >> m) (helper_blocking_syscall_handler-Ends case_6)

case_4-breaks : case_4 ≡ (verhogen >>= λ _. helper_non_blocking_syscall_handler)
unfolding case_4
case_4-breaks = ap (λ m. verhogen >>= λ _. m) (helper_non_blocking_syscall_handler-Ends case_5)

case_1-breaks : case_1 ≡ (createprocess >> helper_non_blocking_syscall_handler)
unfolding case_1
case_1-breaks =
    ap (λ m. createprocess >> m) (helper_non_blocking_syscall_handler-Ends terminateprocess)

-- The cases of `SYSCALL_handler` without a `break` do not run on: for every number the switch does
-- what it would do with a `break` at the end of each case.
pub syscall_switch-breaks : (n : ℕ) → syscall_switch n ≡ switch_with_breaks n
unfolding syscall_switch
syscall_switch-breaks n =
    simp (case_1-breaks, case_4-breaks, case_5-breaks, case_6-breaks, case_7-breaks, case_8-breaks)
      refl
