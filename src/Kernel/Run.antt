-- ===== src/Kernel/Run.antt =====
-- Commands over the memory: they return a value, leave the nucleus, or fail.
--
-- `LDST`, `LDCXT`, `HALT`, `PANIC` and `WAIT` do not return to their caller: they hand the
-- processor over, so that no statement behind them runs. `WAIT` ends with the next interrupt,
-- whose handler does not return to it.
use operating_system_cs.Base.{ℕ, ◌≡◌, ◌≢◌, refl, false, arith, if◌then◌else◌, ◌==◌}
use operating_system_cs.Ring.{Ptr, null}
use operating_system_cs.Kernel.{State, Kernel}

pub data Exit : Type 0 where
  ldst : State → Exit
  ldcxt : (stack_ptr status pc : ℕ) → Exit
  halt : Exit
  panic : Exit
  wait : Exit

-- `fault` is an access through `NULL`.
pub data Run (A : Type 0) : Type 0 where
  ok : A → Kernel → Run A
  leave : Exit → Kernel → Run A
  fault : Run A
  out_of_fuel : Run A

abbrev pub Cmd : Type 0 → Type 0
Cmd A = Kernel → Run A

abbrev pub pure : {A : Type 0} → A → Cmd A
pure = ok

module _ {A B : Type 0} where
  abbrev pub and_then : Run A → (A → Cmd B) → Run B
  and_then (ok a k) f = f a k
  and_then (leave e k) f = leave e k
  and_then fault f = fault
  and_then out_of_fuel f = out_of_fuel

  infixl 5 ◌>>=◌ ◌>>◌
  abbrev pub ◌>>=◌ : Cmd A → (A → Cmd B) → Cmd B
  m >>= f = λ k. and_then (m k) f

  abbrev pub ◌>>◌ : Cmd A → Cmd B → Cmd B
  m >> n = m >>= λ _. n

-- The value of a global variable, and an assignment to globals.
abbrev pub read : {A : Type 0} → (Kernel → A) → Cmd A
read f k = ok (f k) k

abbrev pub modify : (Kernel → Kernel) → Cmd (Unit {0})
modify f k = ok tt (f k)

-- `p->field`, and an assignment to a field of `*p`.
abbrev pub load : {A : Type 0} → (Kernel → Ptr → A) → Ptr → Cmd A
load f p k = if p == null then fault else ok (f k p) k

abbrev pub store : Ptr → (Kernel → Kernel) → Cmd (Unit {0})
store p f k = if p == null then fault else ok tt (f k)

-- The run returns, and its value and final memory satisfy `P`.
abbrev pub Returns : {A : Type 0} → (A → Kernel → Type 0) → Run A → Type 0
Returns P (ok a k) = P a k
Returns P (leave e k) = ⊥
Returns P fault = ⊥
Returns P out_of_fuel = ⊥

-- The run hands the processor over as `P` says.
abbrev pub Leaves : {A : Type 0} → (Exit → Kernel → Type 0) → Run A → Type 0
Leaves P (ok a k) = ⊥
Leaves P (leave e k) = P e k
Leaves P fault = ⊥
Leaves P out_of_fuel = ⊥

pub ne_null : (p : Ptr) → p ≢ null → (p == null) ≡ false
ne_null p h = ground arith

pub Returns-bind :
    {A B : Type 0} (P : A → Kernel → Type 0) (Q : B → Kernel → Type 0) (r : Run A) (f : A → Cmd B)
    → Returns P r
    → ((a : A) (k : Kernel) → P a k → Returns Q (f a k))
    → Returns Q (and_then r f)
Returns-bind P Q (ok a k) f h g = g a k h
Returns-bind P Q (leave e k) f h g = absurd h
Returns-bind P Q fault f h g = absurd h
Returns-bind P Q out_of_fuel f h g = absurd h

pub Leaves-bind :
    {A B : Type 0} (P : A → Kernel → Type 0) (Q : Exit → Kernel → Type 0) (r : Run A)
    (f : A → Cmd B)
    → Returns P r
    → ((a : A) (k : Kernel) → P a k → Leaves Q (f a k))
    → Leaves Q (and_then r f)
Leaves-bind P Q (ok a k) f h g = g a k h
Leaves-bind P Q (leave e k) f h g = absurd h
Leaves-bind P Q fault f h g = absurd h
Leaves-bind P Q out_of_fuel f h g = absurd h

pub Returns-mono :
    {A : Type 0} (P Q : A → Kernel → Type 0) (r : Run A)
    → Returns P r
    → ((a : A) (k : Kernel) → P a k → Q a k)
    → Returns Q r
Returns-mono P Q (ok a k) h g = g a k h
Returns-mono P Q (leave e k) h g = absurd h
Returns-mono P Q fault h g = absurd h
Returns-mono P Q out_of_fuel h g = absurd h

pub Leaves-mono :
    {A : Type 0} (P Q : Exit → Kernel → Type 0) (r : Run A)
    → Leaves P r
    → ((e : Exit) (k : Kernel) → P e k → Q e k)
    → Leaves Q r
Leaves-mono P Q (ok a k) h g = absurd h
Leaves-mono P Q (leave e k) h g = g e k h
Leaves-mono P Q fault h g = absurd h
Leaves-mono P Q out_of_fuel h g = absurd h

-- A run that returns, with its value and memory at hand.
pub data Ran {A : Type 0} (P : A → Kernel → Type 0) (m : Run A) : Type 0 where
  ran : (a : A) (k : Kernel) → m ≡ ok a k → P a k → Ran P m

pub Returns-Ran : {A : Type 0} (P : A → Kernel → Type 0) (m : Run A) → Returns P m → Ran P m
Returns-Ran P (ok a k) h = ran a k refl h
Returns-Ran P (leave e k) h = absurd h
Returns-Ran P fault h = absurd h
Returns-Ran P out_of_fuel h = absurd h
