-- ===== src/Support/Logic.antt =====
-- What holds behind a command of the support level.
use operating_system_cs.Base.{◌≡◌, refl}
use operating_system_cs.Support.{Store}
use operating_system_cs.Support.Code.{Departure, Out, Code, done, left, crash, no_fuel, after}

-- The command returns so that `P` holds, or ends so that `Q` holds; it does not fail.
abbrev pub After :
    {A : Type 0} → (A → Store → Type 0) → (Departure → Store → Type 0) → Out A → Type 0
After P Q (done a s) = P a s
After P Q (left d s) = Q d s
After P Q crash = ⊥
After P Q no_fuel = ⊥

-- The command returns.
abbrev pub Finishes : {A : Type 0} → (A → Store → Type 0) → Out A → Type 0
Finishes P (done a s) = P a s
Finishes P (left d s) = ⊥
Finishes P crash = ⊥
Finishes P no_fuel = ⊥

pub After-bind :
    {A B : Type 0} (P : A → Store → Type 0) (R : B → Store → Type 0)
    (Q : Departure → Store → Type 0) (m : Out A) (f : A → Code B)
    → After P Q m
    → ((a : A) (s : Store) → P a s → After R Q (f a s))
    → After R Q (after m f)
After-bind P R Q (done a s) f h g = g a s h
After-bind P R Q (left d s) f h g = h
After-bind P R Q crash f h g = absurd h
After-bind P R Q no_fuel f h g = absurd h

pub After-mono :
    {A : Type 0} (P R : A → Store → Type 0) (Q : Departure → Store → Type 0) (m : Out A)
    → After P Q m
    → ((a : A) (s : Store) → P a s → R a s)
    → After R Q m
After-mono P R Q (done a s) h g = g a s h
After-mono P R Q (left d s) h g = h
After-mono P R Q crash h g = absurd h
After-mono P R Q no_fuel h g = absurd h

-- A command that returns, with its value and memory at hand.
pub data Finished {A : Type 0} (P : A → Store → Type 0) (m : Out A) : Type 0 where
  finished : (a : A) (s : Store) → m ≡ done a s → P a s → Finished P m

pub Finishes-Finished :
    {A : Type 0} (P : A → Store → Type 0) (m : Out A) → Finishes P m → Finished P m
Finishes-Finished P (done a s) h = finished a s refl h
Finishes-Finished P (left d s) h = absurd h
Finishes-Finished P crash h = absurd h
Finishes-Finished P no_fuel h = absurd h

pub Finishes-mono :
    {A : Type 0} (P R : A → Store → Type 0) (m : Out A)
    → Finishes P m
    → ((a : A) (s : Store) → P a s → R a s)
    → Finishes R m
Finishes-mono P R (done a s) h g = g a s h
Finishes-mono P R (left d s) h g = absurd h
Finishes-mono P R crash h g = absurd h
Finishes-mono P R no_fuel h g = absurd h

pub Finishes-bind :
    {A B : Type 0} (P : A → Store → Type 0) (R : B → Store → Type 0) (m : Out A) (f : A → Code B)
    → Finishes P m
    → ((a : A) (s : Store) → P a s → Finishes R (f a s))
    → Finishes R (after m f)
Finishes-bind P R (done a s) f h g = g a s h
Finishes-bind P R (left d s) f h g = absurd h
Finishes-bind P R crash f h g = absurd h
Finishes-bind P R no_fuel f h g = absurd h
