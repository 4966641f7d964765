-- ===== src/Adl/Wake/Due.antt =====
-- The inner loop of the delay daemon (phase5/delayDaemon.c).
use operating_system_cs.Base.{
  ℕ, zero, suc, ◌+◌, ◌≤◌, ◌<◌, ◌≡◌, refl, ap, ◌∙◌, sym, List, [], ◌∷◌, false, arith, length, leb,
  leb→le, Bool-cases, inl, inr,
}
use mathlib.Core.Path.{subst}
use operating_system_cs.Ring.{Ptr}
use operating_system_cs.Kernel.Run.{ne_null}
use operating_system_cs.Kernel.Const.{timescaleaddr, maxproc}
use operating_system_cs.Support.{Store}
use operating_system_cs.Support.Const.{maxsignedint}
use operating_system_cs.Support.Code.{Nucleus}
use operating_system_cs.Support.Machine.{sdiv32}
use operating_system_cs.Support.Logic.{Finishes, Finishes-mono}
use operating_system_cs.Adl.{wake_due}
use operating_system_cs.Adl.List.{Sleeper, IsAdl}
use operating_system_cs.Adl.Wake.{
  Undisturbed, Undisturbing, freed, freed-IsAdl, wake_call, wake_first-freed,
}
use operating_system_cs.Adl.Wake.Clock.{
  held_at, reads, InTime, wake_calls, IsWoken, NoneDue-above, sle-small, held, InTime-Reading,
  Undisturbed-IsAdl, clock-IsAdl,
}

module _ (nucleus : Nucleus) (quiet : Undisturbing nucleus) (now late : ℕ)
    (end : late < maxsignedint) where
  -- The outcome of a round and of the rounds behind it.
  one_more :
      (s s' : Store) (t : Ptr) (d : Sleeper) (ds : List Sleeper) (free : List Ptr) (u : Store)
      (ts : List ℕ)
      → Undisturbed (record s { calls = wake_call d ∷ s.calls }) u
      → d.wake ≤ late
      → (woken : List Sleeper) × ((rest : List Sleeper) × IsWoken
            (record (freed u d.addr) { clock = ts })
            s'
            t
            ds
            (d.addr ∷ free)
            now
            late
            woken
            rest)
      → (woken : List Sleeper) × ((rest : List Sleeper) × IsWoken s s' t
            (d ∷ ds)
            free
            now
            late
            woken
            rest)
  one_more s s' t d ds free u ts un due w = (
    d ∷ w.0,
    (
      w.1.0,
      record {
        split = ap (λ z. d ∷ z) w.1.1.split;
        list = w.1.1.list;
        due = (due, w.1.1.due);
        none_due = w.1.1.none_due;
        called = w.1.1.called ∙ ap (λ (z : Store). wake_calls w.0 z.calls) un.1;
      },
    ),
  )

  wake_due-IsWoken :
      (fuel curr : ℕ) (s : Store) (t : Ptr) (ds : List Sleeper) (free : List Ptr)
      → IsAdl s t ds free
      → now ≤ curr
      → curr ≤ late
      → InTime now late (s.words timescaleaddr) (length ds) s.clock
      → length ds < fuel
      → Finishes
          (λ _ s'.
            (woken : List Sleeper) × ((rest : List Sleeper) × IsWoken s s' t ds free now late woken
                rest))
          (wake_due nucleus fuel curr s)
  unfolding wake_due
  wake_due-IsWoken zero curr s t ds free A lo hi clock lt = absurd (omega arith)
  wake_due-IsWoken (suc fuel) curr s t [] free A lo hi clock lt =
      let later : leb maxsignedint curr ≡ false = ground (arith, hi, end) in
      simp
        (
          ne_null s.delayd_h A.head_not_null,
          A.active,
          ne_null t A.tail_not_null,
          A.tail_wake,
          sle-small maxsignedint curr (omega arith) (omega arith),
          later,
        )
        ([], ([], record { split = refl; list = A; due = tt; none_due = tt; called = refl }))
  wake_due-IsWoken (suc fuel) curr s t (d ∷ ds) free A lo hi clock lt =
      simp
        (
          ne_null s.delayd_h A.head_not_null,
          A.active.0,
          ne_null d.addr A.active.2.not_null,
          A.active.2.wake_at,
          sle-small d.wake curr (omega (arith, A.active.2.early)) (omega arith),
        )
        (elim (Bool-cases (leb d.wake curr)) [
          | inl e ↦
              let c = wake_call d in
              let k : Store = record s { calls = c ∷ s.calls } in
              elim (held k (nucleus c k) (quiet c k refl)) [
                | held_at v u runs un ↦
                    elim (InTime-Reading now late (s.words timescaleaddr) (length ds) s.clock
                      clock) [
                        | reads r ts read above below rest ↦
                            simp
                              (
                                e,
                                wake_first-freed nucleus s t d ds free v u A runs un,
                                ap (λ (z : Store). z.clock) un.1 ∙ read,
                              )
                              (Finishes-mono
                                (λ _ s'.
                                  (woken : List Sleeper) × ((others : List Sleeper) × IsWoken
                                      (record (freed u d.addr) { clock = ts }) s' t ds
                                      (d.addr ∷ free) now late woken others))
                                (λ _ s'.
                                  (woken : List Sleeper) × ((others : List Sleeper) × IsWoken s s' t
                                      (d ∷ ds) free now late woken others))
                                _
                                (wake_due-IsWoken fuel (sdiv32 r (u.words timescaleaddr))
                                  (record (freed u d.addr) { clock = ts }) t ds (d.addr ∷ free)
                                  (clock-IsAdl (freed u d.addr) ts t ds (d.addr ∷ free) (
                                    freed-IsAdl u t d ds free
                                      (Undisturbed-IsAdl s u (c ∷ s.calls) t (d ∷ ds) free un A)))
                                  (subst (λ z. now ≤ sdiv32 r z) (sym un.0) above)
                                  (subst (λ z. sdiv32 r z ≤ late) (sym un.0) below)
                                  (subst (λ z. InTime now late z (length ds) ts) (sym un.0) rest)
                                  (omega arith))
                                (λ _ s' w.
                                  one_more s s' t d ds free u ts un
                                    (omega (arith, leb→le d.wake curr e)) w))
                      ]
              ]
          | inr e ↦
              let later : curr < d.wake = ground arith in
              simp e (
                [],
                (
                  d ∷ ds,
                  record {
                    split = refl;
                    list = A;
                    due = tt;
                    none_due = (
                      omega arith,
                      NoneDue-above s.d_next s.d_wake_time s.d_sup_struct t d.wake (s.d_next d.addr)
                          now ds A.active.3 (omega arith),
                    );
                    called = refl;
                  },
                ),
              )
        ])

-- With the semaphore of the list held, the daemon wakes, in the order of the list, the processes that
-- are due, and its loop ends within MAXPROC + 2 rounds. All clock readings lie between `now` and
-- `late`, which is before the tail dummy's time: each process due at `now` is woken, none that is not
-- due at `late`, no other call is made, and the list stays sorted and well formed with the freed
-- descriptors back on the free list. SYS4 returns and leaves the list and the clock alone.
pub wake_due-all :
    (nucleus : Nucleus) (now late : ℕ) (s : Store) (t : Ptr) (ds : List Sleeper) (free : List Ptr)
    → Undisturbing nucleus
    → now ≤ late
    → late < maxsignedint
    → IsAdl s t ds free
    → InTime now late (s.words timescaleaddr) (length ds) s.clock
    → Finishes
        (λ _ s'.
          (woken : List Sleeper) × ((rest : List Sleeper) × IsWoken s s' t ds free now late woken
              rest))
        (wake_due nucleus (maxproc + 2) now s)
wake_due-all nucleus now late s t ds free quiet le end A clock =
    wake_due-IsWoken nucleus quiet now late end (maxproc + 2) now s t ds free A (omega arith) le
      clock (omega (arith, A.count))
