-- ===== src/Support/Code.antt =====
-- Commands of the support level. They return, load a saved state, end with the process, or fail.
--
-- A SYSCALL is served by the nucleus, and other processes may run before it returns. The nucleus is
-- a parameter: from the call and the memory it gives the value in v0 and the memory at the return,
-- or says that the call does not return.
use operating_system_cs.Base.{ℕ, ◌∷◌, if◌then◌else◌, ◌==◌}
use operating_system_cs.Ring.{Ptr, null}
use operating_system_cs.Kernel.{State}
use operating_system_cs.Support.{Call, Store}

pub data Answer : Type 0 where
  back : ℕ → Store → Answer
  gone : Store → Answer

abbrev pub Nucleus : Type 0
Nucleus = Call → Store → Answer

-- The ways in which a handler ends: `LDST`, or a SYSCALL that does not return.
pub data Departure : Type 0 where
  load_state : State → Departure
  never_back : Departure

-- `crash` is an access through `NULL`.
pub data Out (A : Type 0) : Type 0 where
  done : A → Store → Out A
  left : Departure → Store → Out A
  crash : Out A
  no_fuel : Out A

abbrev pub Code : Type 0 → Type 0
Code A = Store → Out A

abbrev pub Action : Type 0
Action = Code (Unit {0})

abbrev pub pure : {A : Type 0} → A → Code A
pure = done

abbrev pub skip : Action
skip = done tt

module _ {A B : Type 0} where
  abbrev pub after : Out A → (A → Code B) → Out B
  after (done a s) f = f a s
  after (left d s) f = left d s
  after crash f = crash
  after no_fuel f = no_fuel

  infixl 5 ◌>>=◌ ◌>>◌
  abbrev pub ◌>>=◌ : Code A → (A → Code B) → Code B
  m >>= f = λ s. after (m s) f

  abbrev pub ◌>>◌ : Code A → Code B → Code B
  m >> n = m >>= λ _. n

abbrev pub get : {A : Type 0} → (Store → A) → Code A
get f s = done (f s) s

abbrev pub put : (Store → Store) → Action
put f s = done tt (f s)

-- A field of `*p`, and an assignment to one, for pointers that may be `NULL`.
abbrev pub load_from : {A : Type 0} → (Store → Ptr → A) → Ptr → Code A
load_from f p s = if p == null then crash else done (f s p) s

abbrev pub store_to : Ptr → (Store → Store) → Action
store_to p f s = if p == null then crash else done tt (f s)

abbrev pub answered : Answer → Out ℕ
answered (back v s) = done v s
answered (gone s) = left never_back s

-- `SYSCALL(a0, a1, a2, a3)`
abbrev pub syscall : Nucleus → (number arg1 arg2 arg3 : ℕ) → Code ℕ
syscall nucleus n x y z s =
    let c : Call = record { number = n; arg1 = x; arg2 = y; arg3 = z } in
    answered (nucleus c (record s { calls = c ∷ s.calls }))
