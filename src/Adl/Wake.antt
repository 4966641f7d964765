-- ===== src/Adl/Wake.antt =====
-- The delay daemon of phase5/delayDaemon.c.
pub mod Clock
pub mod Due
pub mod Alarm
use operating_system_cs.Base.{
  ℕ, suc, ◌+◌, ◌≤◌, ◌≡◌, ◌≢◌, refl, ap, ◌∙◌, sym, List, [], ◌∷◌, true, false, arith, has, length,
  Distinct, if◌then◌else◌, ◌==◌, ==-refl, eq_of_==, upd, upd-same, upd-other, Bool-cases, inl, inr,
}
use mathlib.Core.Path.{subst}
use operating_system_cs.Ring.{Ptr, null, Field}
use operating_system_cs.Chain.{Chain, Chain-upd, Chain-cons}
use operating_system_cs.Kernel.Run.{ne_null}
use operating_system_cs.Kernel.Const.{timescaleaddr}
use operating_system_cs.Support.{Call, Store}
use operating_system_cs.Support.Const.{delay_sem}
use operating_system_cs.Support.Code.{Nucleus, Answer, back, gone, done, answered}
use operating_system_cs.Adl.{free_delayd, wake_first}
use operating_system_cs.Adl.List.{Sleeper, places, IsSleeper, Sleeping, IsAdl, Sleeping-frame}
use operating_system_cs.Adl.Insert.{not_in}

-- The delay list, the clock, its scale and the list of the calls stay; all else may change.
abbrev pub Undisturbed : Store → Store → Type 0
Undisturbed s s' =
    (s'.words timescaleaddr ≡ s.words timescaleaddr)
    × (s' ≡ record s {
      sup_asid = s'.sup_asid;
      sup_except_state = s'.sup_except_state;
      sup_except_context = s'.sup_except_context;
      entry_hi = s'.entry_hi;
      entry_lo = s'.entry_lo;
      asid = s'.asid;
      vpn = s'.vpn;
      matching_pg_table_entry = s'.matching_pg_table_entry;
      next_frame = s'.next_frame;
      words = s'.words;
      chars = s'.chars;
      states = s'.states;
      bios = s'.bios;
      current_support = s'.current_support;
      status = s'.status;
      tlb = s'.tlb;
      paper = s'.paper;
      moves = s'.moves;
    })

abbrev pub QuietlyHeld : Store → Answer → Type 0
QuietlyHeld s (back v s') = Undisturbed s s'
QuietlyHeld s (gone s') = ⊥

-- SYS4 of the daemon returns, and no other process touches the delay list, whose semaphore it holds.
abbrev pub Undisturbing : Nucleus → Type 0
Undisturbing nucleus = (c : Call) (s : Store) → c.number ≡ 4 → QuietlyHeld s (nucleus c s)

-- The memory without the first descriptor `d`, which is free.
abbrev pub freed : Store → Ptr → Store
freed s d = record s {
  d_next = upd (upd s.d_next s.delayd_h (s.d_next d)) d s.delayd_free_h;
  d_wake_time = upd s.d_wake_time d 0;
  d_sup_struct = upd s.d_sup_struct d null;
  delayd_free_h = d;
}

lower :
    (n w p : Field) (t lo h : Ptr) (ds : List Sleeper)
    → Sleeping n w p t lo h ds
    → Sleeping n w p t 0 h ds
lower n w p t lo h [] a = a
lower n w p t lo h (d ∷ ds) a = (a.0, omega arith, a.2, a.3)

module _ (s : Store) (t : Ptr) (d : Sleeper) (ds : List Sleeper) (fs : List Ptr)
    (A : IsAdl s t (d ∷ ds) fs) where
  abbrev x : Ptr
  x = d.addr

  abbrev s1 : Store
  s1 = freed s x

  kept : (c : Ptr) → has c (t ∷ places ds) ≡ true → ((c == x) ≡ false) × ((c == s.delayd_h) ≡ false)
  kept c m = (
    not_in c x (t ∷ places ds) m (ground (arith, A.distinct.1.0, A.distinct.1.1.0)),
    not_in c s.delayd_h (t ∷ places ds) m (ground (arith, A.distinct.0)),
  )

  same :
      (c : Ptr)
      → has c (t ∷ places ds) ≡ true
      → (s1.d_next c ≡ s.d_next c)
        × ((s1.d_wake_time c ≡ s.d_wake_time c) × (s1.d_sup_struct c ≡ s.d_sup_struct c))
  same c m =
      let k = kept c m in
      (
        upd-other (upd s.d_next s.delayd_h (s.d_next x)) x c s.delayd_free_h k.0
            ∙ upd-other s.d_next s.delayd_h c (s.d_next x) k.1,
        (upd-other s.d_wake_time x c 0 k.0, upd-other s.d_sup_struct x c null k.0),
      )

  first : s1.d_next s.delayd_h ≡ s.d_next x
  first =
      upd-other (upd s.d_next s.delayd_h (s.d_next x)) x s.delayd_h s.delayd_free_h
        (ground (arith, A.distinct.0))
      ∙ upd-same s.d_next s.delayd_h (s.d_next x)

  not_free : (c : Ptr) → has c (s.delayd_h ∷ t ∷ x ∷ places ds) ≡ true → has c fs ≡ false
  not_free c m = elim (Bool-cases (has c fs)) [ inl e ↦ ground (arith, A.apart c e, m) | inr e ↦ e ]

  x_apart : has x (s.delayd_h ∷ t ∷ places ds) ≡ false
  x_apart = ground (arith, A.distinct.0, A.distinct.1.0, A.distinct.1.1.0)

  pub freed-IsAdl : IsAdl s1 t ds (x ∷ fs)
  freed-IsAdl = record {
    head_not_null = A.head_not_null;
    tail_not_null = A.tail_not_null;
    tail_wake = upd-other s.d_wake_time x t 0 (kept t (ground (arith, ==-refl t))).0 ∙ A.tail_wake;
    active =
        subst (λ h. Sleeping s1.d_next s1.d_wake_time s1.d_sup_struct t 0 h ds) (sym first)
          (Sleeping-frame t 0 (s.d_next x) ds
            (lower s.d_next s.d_wake_time s.d_sup_struct t d.wake (s.d_next x) ds A.active.3)
            (λ c m. same c (ground (arith, m))));
    distinct = (ground (arith, A.distinct.0), (ground (arith, A.distinct.1.0), A.distinct.1.1.1));
    free_chain =
        Chain-cons {n = upd s.d_next s.delayd_h (s.d_next x)} {h = s.delayd_free_h} x fs
          (Chain-upd {n = s.d_next} s.delayd_h (s.d_next x) fs A.free_chain
            (not_free s.delayd_h (ground (arith, ==-refl s.delayd_h))))
          (not_free x (ground (arith, ==-refl x))) A.active.2.not_null;
    apart = λ c m. elim (Bool-cases (c == x)) [
      | inl e ↦ ap (λ z. has z (s.delayd_h ∷ t ∷ places ds)) (eq_of_== c x e) ∙ x_apart
      | inr e ↦ ground (arith, A.apart c (ground (arith, m)))
    ];
    count = omega (arith, A.count);
  }

-- The call that wakes the process of a descriptor.
abbrev pub wake_call : Sleeper → Call
wake_call d = record { number = 4; arg1 = delay_sem d.sup; arg2 = 0; arg3 = 0 }

-- The memory after `wake_first`, whose SYS4 leaves `u`.
pub wake_first-freed :
    (nucleus : Nucleus) (s : Store) (t : Ptr) (d : Sleeper) (ds : List Sleeper) (fs : List Ptr)
    (v : ℕ) (u : Store)
    → IsAdl s t (d ∷ ds) fs
    → nucleus (wake_call d) (record s { calls = wake_call d ∷ s.calls }) ≡ back v u
    → Undisturbed (record s { calls = wake_call d ∷ s.calls }) u
    → wake_first nucleus s ≡ done tt (freed u d.addr)
unfolding wake_first free_delayd
wake_first-freed nucleus s t d ds fs v u A runs un =
    simp
      (
        ne_null s.delayd_h A.head_not_null,
        A.active.0,
        ne_null d.addr A.active.2.not_null,
        A.active.2.sup_at,
        runs ∙ ap (back v) un.1,
      )
      (ap (λ (z : Store). done tt (freed z d.addr)) (sym un.1))
