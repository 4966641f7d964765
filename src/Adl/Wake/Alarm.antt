-- ===== src/Adl/Wake/Alarm.antt =====
-- A process that `DELAY` put on the list, and the next round of the daemon (phase5/delayDaemon.c).
use operating_system_cs.Base.{
  ℕ, suc, ◌+◌, ◌≤◌, ◌<◌, ◌≡◌, refl, sym, ap, List, [], ◌∷◌, length, arith, ltb, Bool-cases, inl,
  inr,
}
use mathlib.Core.Path.{subst}
use mathlib.Core.List.{Mem, Memᴰ}
use mathlib.Core.List.Memᴰ.{head, tail, append_cases}
use operating_system_cs.Ring.{Ptr}
use operating_system_cs.Kernel.Const.{maxproc, timescaleaddr}
use operating_system_cs.Support.{Call, Store}
use operating_system_cs.Support.Const.{maxsignedint}
use operating_system_cs.Support.Code.{Nucleus, ◌>>◌}
use operating_system_cs.Support.Logic.{Finishes, Finishes-Finished, finished, Finishes-mono}
use operating_system_cs.Adl.{enlist, wake_due}
use operating_system_cs.Adl.List.{Sleeper, IsAdl, insert_sleeper}
use operating_system_cs.Adl.Insert.{length-insert_sleeper}
use operating_system_cs.Adl.Enlist.{enlist-IsAdl}
use operating_system_cs.Adl.Wake.{Undisturbing, wake_call}
use operating_system_cs.Adl.Wake.Clock.{InTime, NoneDue, wake_calls, IsWoken}
use operating_system_cs.Adl.Wake.Due.{wake_due-all}

insert_sleeper-Memᴰ : (d : Sleeper) (ds : List Sleeper) → Memᴰ d (insert_sleeper d ds)
unfolding insert_sleeper
insert_sleeper-Memᴰ d [] = head refl
insert_sleeper-Memᴰ d (x ∷ xs) = elim (Bool-cases (ltb x.wake d.wake)) [
  | inl e ↦ simp e (tail (insert_sleeper-Memᴰ d xs))
  | inr e ↦ simp e (head refl)
]

-- A process that is due does not still sleep.
NoneDue-late :
    (now : ℕ) (d : Sleeper) (ds : List Sleeper) → Memᴰ d ds → NoneDue now ds → now < d.wake
NoneDue-late now d [] m h = elim m [ ]
NoneDue-late now d (x ∷ ds) (head e) h = omega (arith, ap (λ (z : Sleeper). z.wake) e, h.0)
NoneDue-late now d (x ∷ ds) (tail m) h = NoneDue-late now d ds m h.1

earlier_calls :
    (c : Call) (ds : List Sleeper) (cs : List Call) → Memᴰ c cs → Memᴰ c (wake_calls ds cs)
earlier_calls c [] cs m = m
earlier_calls c (d ∷ ds) cs m = earlier_calls c ds (wake_call d ∷ cs) (tail m)

wake_calls-Memᴰ :
    (d : Sleeper) (ds : List Sleeper) (cs : List Call)
    → Memᴰ d ds
    → Memᴰ (wake_call d) (wake_calls ds cs)
wake_calls-Memᴰ d [] cs m = elim m [ ]
wake_calls-Memᴰ d (x ∷ ds) cs (head e) =
    earlier_calls (wake_call d) ds (wake_call x ∷ cs) (head (ap wake_call e))
wake_calls-Memᴰ d (x ∷ ds) cs (tail m) = wake_calls-Memᴰ d ds (wake_call x ∷ cs) m

-- What the daemon did, if the due process `d` was on the list.
IsWoken-called :
    (s s' : Store) (t : Ptr) (ds : List Sleeper) (free : List Ptr) (now late : ℕ)
    (woken rest : List Sleeper) (d : Sleeper)
    → IsWoken s s' t ds free now late woken rest
    → Memᴰ d ds
    → d.wake ≤ now
    → Memᴰ (wake_call d) s'.calls
IsWoken-called s s' t ds free now late woken rest d w m due =
    subst (Memᴰ (wake_call d)) (sym w.called)
      (elim (append_cases woken (subst (Memᴰ d) w.split m)) [
        | inl m' ↦ wake_calls-Memᴰ d woken s.calls m'
        | inr m' ↦ absurd (omega (arith, due, NoneDue-late now d rest m' w.none_due))
      ])

-- A process that `DELAY` put on the list to wake at `w` is woken by SYS4 on its own semaphore in the
-- round of the daemon that starts at `now`, at `w` or later. A descriptor is free, the clock readings of the
-- round lie between `now` and `late`, which is before the tail dummy's time, and SYS4 returns and
-- leaves the list and the clock alone.
pub enlist-woken :
    (nucleus : Nucleus) (m w sup now late : ℕ) (s : Store) (t f : Ptr) (ds : List Sleeper)
    (fs : List Ptr)
    → Undisturbing nucleus
    → w ≤ now
    → now ≤ late
    → late < maxsignedint
    → IsAdl s t ds (f ∷ fs)
    → InTime now late (s.words timescaleaddr) (suc (length ds)) s.clock
    → Finishes
        (λ _ s'. Mem (wake_call (record { addr = f; wake = w; sup = sup })) s'.calls)
        ((enlist nucleus m w sup >> wake_due nucleus (maxproc + 2) now) s)
enlist-woken nucleus m w sup now late s t f ds fs quiet due le end A clock =
    let new : Sleeper = record { addr = f; wake = w; sup = sup } in
    elim (Finishes-Finished
      (λ _ s'.
        IsAdl s' t (insert_sleeper new ds) fs
        × (s' ≡ record s {
          d_next = s'.d_next;
          d_wake_time = s'.d_wake_time;
          d_sup_struct = s'.d_sup_struct;
          delayd_free_h = s'.delayd_free_h;
        }))
      (enlist nucleus m w sup s) (enlist-IsAdl nucleus s m t f w sup ds fs A (omega arith))) [
        | finished u s1 runs h ↦
            let clock1 : InTime now late (s1.words timescaleaddr) (length (insert_sleeper new ds))
                s1.clock =
              subst
                (λ (z : Store).
                  InTime now late (z.words timescaleaddr) (length (insert_sleeper new ds)) z.clock)
                (sym h.1)
                (subst (λ n. InTime now late (s.words timescaleaddr) n s.clock)
                  (sym (length-insert_sleeper new ds)) clock) in
            simp runs (
              Finishes-mono
                (λ _ s'.
                  (woken : List Sleeper) × ((rest : List Sleeper) × IsWoken s1 s' t
                      (insert_sleeper new ds) fs now late woken rest))
                (λ _ s'. Mem (wake_call new) s'.calls) _
                (wake_due-all nucleus now late s1 t (insert_sleeper new ds) fs quiet le end h.0
                  clock1)
                (λ _ s' r.
                  ∣ IsWoken-called s1 s' t (insert_sleeper new ds) fs now late r.0 r.1.0 new r.1.1
                    (insert_sleeper-Memᴰ new ds) due ∣₁))
      ]
