-- ===== src/Adl/Wake/Clock.antt =====
-- The clock and the other processes while the delay daemon of phase5/delayDaemon.c works.
use operating_system_cs.Base.{
  ℕ, zero, suc, ◌≤◌, ◌<◌, ◌≡◌, refl, sym, List, [], ◌∷◌, ◌++◌, arith, leb, sle,
}
use mathlib.Core.Path.{subst}
use operating_system_cs.Ring.{Ptr}
use operating_system_cs.Support.{Call, Store}
use operating_system_cs.Support.Code.{Answer, back, gone}
use operating_system_cs.Support.Machine.{sdiv32}
use operating_system_cs.Adl.List.{Sleeper, Sleeping, IsAdl}
use operating_system_cs.Adl.Wake.{Undisturbed, QuietlyHeld, wake_call}

-- The next `n` readings of the clock exist and lie between `now` and `late`.
abbrev pub InTime : (now late scale n : ℕ) → List ℕ → Type 0
InTime now late scale zero ts = Unit
InTime now late scale (suc n) [] = ⊥
InTime now late scale (suc n) (r ∷ ts) =
    (now ≤ sdiv32 r scale) × (sdiv32 r scale ≤ late) × InTime now late scale n ts

abbrev pub AllDue : ℕ → List Sleeper → Type 0
AllDue late [] = Unit
AllDue late (d ∷ ds) = (d.wake ≤ late) × AllDue late ds

abbrev pub NoneDue : ℕ → List Sleeper → Type 0
NoneDue now [] = Unit
NoneDue now (d ∷ ds) = (now < d.wake) × NoneDue now ds

-- The calls that wake the processes, the last one first, before `cs`.
abbrev pub wake_calls : List Sleeper → List Call → List Call
wake_calls [] cs = cs
wake_calls (d ∷ ds) cs = wake_calls ds (wake_call d ∷ cs)

abbrev pub addrs_onto : List Sleeper → List Ptr → List Ptr
addrs_onto [] fs = fs
addrs_onto (d ∷ ds) fs = addrs_onto ds (d.addr ∷ fs)

-- What the loop has done: `woken` are the processes that it woke, in order, and `rest` still sleep.
pub record IsWoken (s s' : Store) (t : Ptr) (ds : List Sleeper) (free : List Ptr) (now late : ℕ)
    (woken rest : List Sleeper) : Type 0 where
  pub split : ds ≡ woken ++ rest
  pub list : IsAdl s' t rest (addrs_onto woken free)
  pub due : AllDue late woken
  pub none_due : NoneDue now rest
  pub called : s'.calls ≡ wake_calls woken s.calls

pub NoneDue-above :
    (n w p : Ptr → ℕ) (t lo h now : ℕ) (ds : List Sleeper)
    → Sleeping n w p t lo h ds
    → now < lo
    → NoneDue now ds
NoneDue-above n w p t lo h now [] a lt = tt
NoneDue-above n w p t lo h now (d ∷ ds) a lt =
    (omega (arith, a.1), NoneDue-above n w p t d.wake (n d.addr) now ds a.3 (omega (arith, a.1)))

pub sle-small : (a b : ℕ) → a < 0x8000_0000 → b < 0x8000_0000 → sle a b ≡ leb a b
sle-small a b ha hb = ground (arith, ha, hb)

-- A call that returns, with the memory at the return.
pub data Held (s : Store) (a : Answer) : Type 0 where
  held_at : (v : ℕ) (u : Store) → a ≡ back v u → Undisturbed s u → Held s a

pub held : (s : Store) (a : Answer) → QuietlyHeld s a → Held s a
held s (back v u) h = held_at v u refl h
held s (gone u) h = absurd h

pub data Reading (now late scale n : ℕ) (ts : List ℕ) : Type 0 where
  reads :
      (r : ℕ) (rs : List ℕ)
      → ts ≡ r ∷ rs
      → now ≤ sdiv32 r scale
      → sdiv32 r scale ≤ late
      → InTime now late scale n rs
      → Reading now late scale n ts

pub InTime-Reading :
    (now late scale n : ℕ) (ts : List ℕ)
    → InTime now late scale (suc n) ts
    → Reading now late scale n ts
InTime-Reading now late scale n [] h = absurd h
InTime-Reading now late scale n (r ∷ rs) h = reads r rs refl h.0 h.1 h.2

pub Undisturbed-IsAdl :
    (s u : Store) (c : List Call) (t : Ptr) (ds : List Sleeper) (fs : List Ptr)
    → Undisturbed (record s { calls = c }) u
    → IsAdl s t ds fs
    → IsAdl u t ds fs
Undisturbed-IsAdl s u c t ds fs un A =
    subst (λ z. IsAdl z t ds fs) (sym un.1)
      (record {
        head_not_null = A.head_not_null;
        tail_not_null = A.tail_not_null;
        tail_wake = A.tail_wake;
        active = A.active;
        distinct = A.distinct;
        free_chain = A.free_chain;
        apart = A.apart;
        count = A.count;
      })

pub clock-IsAdl :
    (s : Store) (c : List ℕ) (t : Ptr) (ds : List Sleeper) (fs : List Ptr)
    → IsAdl s t ds fs
    → IsAdl (record s { clock = c }) t ds fs
clock-IsAdl s c t ds fs A = record {
  head_not_null = A.head_not_null;
  tail_not_null = A.tail_not_null;
  tail_wake = A.tail_wake;
  active = A.active;
  distinct = A.distinct;
  free_chain = A.free_chain;
  apart = A.apart;
  count = A.count;
}
