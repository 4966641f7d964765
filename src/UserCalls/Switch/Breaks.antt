-- ===== src/UserCalls/Switch/Breaks.antt =====
-- The switch of `syscall_handler` (phase3/sysSupport.c) and breaks.
use operating_system_cs.Base.{ℕ, ◌≡◌, refl, fun_ext, Bool, true, false, ◌∷◌, if◌then◌else◌, ◌==◌}
use operating_system_cs.Ring.{Ptr, null}
use operating_system_cs.Support.{Call, Store}
use operating_system_cs.Support.Code.{
  Nucleus, Action, Out, Departure, done, left, crash, no_fuel, gone, after, ◌>>◌,
}
use operating_system_cs.Uproc.{terminate, give_up, die, program_trap_handler}
use operating_system_cs.UserCalls.{helper_return_control, get_tod}
use operating_system_cs.UserCalls.Print.{write_to_printer}
use operating_system_cs.UserCalls.Terminal.{write_to_terminal, read_from_terminal}
use operating_system_cs.UserCalls.Switch.{user_switch}
use operating_system_cs.Dev.{write_to_disk, read_from_disk}
use operating_system_cs.Dev.Flash.{write_to_flash, read_from_flash}
use operating_system_cs.Adl.{delay, resume, sleep}

-- SYS2 does not return.
abbrev pub Kills : Nucleus → Type 0
Kills nucleus = (c : Call) (s : Store) → c.number ≡ 2 → nucleus c s ≡ gone s

-- The run does not return.
pub data IsExit : Out (Unit {0}) → Type 0 where
  by_leaving : (d : Departure) (s : Store) → IsExit (left d s)
  by_crash : IsExit crash
  by_fuel : IsExit no_fuel

after-IsExit :
    {A : Type 0} (o : Out A) (f : A → Action)
    → ((a : A) (s : Store) → IsExit (f a s))
    → IsExit (after o f)
after-IsExit (done a s) f h = h a s
after-IsExit (left d s) f h = by_leaving d s
after-IsExit crash f h = by_crash
after-IsExit no_fuel f h = by_fuel

-- What stands behind a command that does not return has no effect.
IsExit-after : (o : Out (Unit {0})) (n : Action) → IsExit o → after o (λ _. n) ≡ o
IsExit-after (done a s) n e = elim e [ ]
IsExit-after (left d s) n e = refl
IsExit-after crash n e = refl
IsExit-after no_fuel n e = refl

delay-IsExit : (nucleus : Nucleus) (sup : Ptr) (s : Store) → IsExit (delay nucleus sup s)
unfolding delay resume
delay-IsExit nucleus sup s =
    after-IsExit (sleep nucleus sup s) (λ _. resume sup) (λ _ _. by_leaving _ _)

die-IsExit : (nucleus : Nucleus) (s : Store) → Kills nucleus → IsExit (die nucleus s)
unfolding die
die-IsExit nucleus s kills =
    let c : Call = record { number = 2; arg1 = 0; arg2 = 0; arg3 = 0 } in
    simp (kills c (record s { calls = c ∷ s.calls }) refl) (by_leaving _ _)

pub terminate-IsExit :
    (nucleus : Nucleus) (sup : Ptr) (s : Store) → Kills nucleus → IsExit (terminate nucleus sup s)
unfolding terminate
terminate-IsExit nucleus sup s kills =
    after-IsExit (give_up nucleus sup s) (λ _. die nucleus) (λ _ s'. die-IsExit nucleus s' kills)

-- A command that does not return, before another one.
cut : (m n : Action) → ((s : Store) → IsExit (m s)) → (m >> n) ≡ m
cut m n h = fun_ext λ s. IsExit-after (m s) n (h s)

-- A system call that returns is followed by the return to the process.
returns :
    (sup : Ptr) (m n : Action)
    → (m >> helper_return_control sup >> n) ≡ (m >> helper_return_control sup)
unfolding helper_return_control
returns sup m n =
    cut (m >> helper_return_control sup) n
      (λ s. after-IsExit (m s) (λ _. helper_return_control sup) (λ a s'. by_leaving _ _))

if_cong :
    {A : Type 0} (c : Bool) {x x' y y' : A}
    → x ≡ x'
    → y ≡ y'
    → (if c then x else y) ≡ (if c then x' else y')
if_cong true p q = p
if_cong false p q = q

-- The switch as it would be with a break at the end of each case.
pub user_switch_with_breaks : Nucleus → (fuel n : ℕ) → Ptr → Action
user_switch_with_breaks nucleus fuel n sup =
    if n == 9
    then terminate nucleus sup
    else if n == 10
    then get_tod sup >> helper_return_control sup
    else if n == 11
    then write_to_printer nucleus sup >> helper_return_control sup
    else if n == 12
    then write_to_terminal nucleus sup >> helper_return_control sup
    else if n == 13
    then read_from_terminal nucleus fuel sup >> helper_return_control sup
    else if n == 14
    then write_to_disk nucleus sup >> helper_return_control sup
    else if n == 15
    then read_from_disk nucleus sup >> helper_return_control sup
    else if n == 16
    then write_to_flash nucleus sup >> helper_return_control sup
    else if n == 17
    then read_from_flash nucleus sup >> helper_return_control sup
    else if n == 18
    then delay nucleus sup
    else program_trap_handler nucleus sup null

-- If SYS2 does not return, the switch of `syscall_handler` on any number does what it would do with a
-- break at the end of each case: none runs on into the next one.
pub user_switch-breaks :
    (nucleus : Nucleus) (fuel n : ℕ) (sup : Ptr)
    → Kills nucleus
    → user_switch nucleus fuel n sup ≡ user_switch_with_breaks nucleus fuel n sup
unfolding user_switch user_switch_with_breaks
user_switch-breaks nucleus fuel n sup kills =
    if_cong (n == 9) (cut (terminate nucleus sup) _ (λ s. terminate-IsExit nucleus sup s kills)) (
      if_cong (n == 10) (returns sup (get_tod sup) _) (
        if_cong (n == 11) (returns sup (write_to_printer nucleus sup) _) (
          if_cong (n == 12) (returns sup (write_to_terminal nucleus sup) _) (
            if_cong (n == 13) (returns sup (read_from_terminal nucleus fuel sup) _) (
              if_cong (n == 14) (returns sup (write_to_disk nucleus sup) _) (
                if_cong (n == 15) (returns sup (read_from_disk nucleus sup) _) (
                  if_cong (n == 16) (returns sup (write_to_flash nucleus sup) _) (
                    if_cong (n == 17) (returns sup (read_from_flash nucleus sup) _) (
                      if_cong (n == 18) (cut (delay nucleus sup) _ (delay-IsExit nucleus sup))
                        refl)))))))))
