-- ===== src/Interrupts/Clock.antt =====
-- `pseudo_clock_interrupts` of phase2/interrupts.c: the loop that unblocks all that wait for the clock.
use operating_system_cs.Base.{
  ℕ, zero, suc, ◌<◌, ◌≡◌, ◌≢◌, refl, sym, ap, ◌∙◌, List, [], ◌∷◌, ◌++◌, true, false, arith, has,
  has-append, Bool-cases, inl, inr, ◌==◌, ==-refl, if◌then◌else◌, length, sub32, ◌+◌, ◌≤◌, mul32,
  upd,
}
use mathlib.Core.Path.{subst}
use operating_system_cs.Ring.{Ptr, null, Ring, Ring-frame}
use operating_system_cs.Kernel.{Kernel}
use operating_system_cs.Kernel.Const.{
  maxproc, int_elem, pseudo_clock_idx, intervaltmr, timescaleaddr,
}
use operating_system_cs.Kernel.Run.{
  Leaves, ldst, Returns, Returns-mono, Returns-Ran, ran, ok, ne_null,
}
use operating_system_cs.Pcb.Queue.{IsProcQ, first, rest}
use operating_system_cs.Pcb.Queue.Explicit.{links_run, insert_proc_q-run, Outside}
use operating_system_cs.Asl.Defs.{sentinel, remove_blocked}
use operating_system_cs.Asl.List.{Desc, blocked, queue_of, IsAsl}
use operating_system_cs.Asl.Frame.{outer, IsAsl-outer, queue_of-blocked}
use operating_system_cs.Asl.Blocked.{Unblocked-blocked, null_free}
use operating_system_cs.Asl.Remove.Absent.{Unblocked}
use operating_system_cs.Asl.Remove.{remove_blocked-Unblocked}
use operating_system_cs.Interrupts.Defs.{
  helper_unblock_process, unblock_all, unblock_waiting, pseudo_clock_interrupts,
}

-- `n` decrements of an `int`.
abbrev pub lowered : ℕ → ℕ → ℕ
lowered zero s = s
lowered (suc n) s = lowered n (sub32 s 1)

-- The pcbs `ws` that waited for the semaphore `a` stand behind the ready pcbs `xs`.
pub record Drained (t a : Ptr) (ds : List Desc) (xs ws : List Ptr) (k k' : Kernel) : Type 0 where
  pub list : List Desc
  pub free : List Ptr
  pub is_asl : IsAsl k' t list free
  pub queues : (b : Ptr) → queue_of b list ≡ (if b == a then [] else queue_of b ds)
  pub ready : IsProcQ k' k'.ready_q (xs ++ ws)
  pub count : k'.soft_block_count ≡ lowered (length ws) k.soft_block_count
  pub states : k'.p_s ≡ k.p_s
  pub current : k'.current_p ≡ k.current_p
  pub saved : k'.bios ≡ k.bios
  pub words : k'.words ≡ k.words

append_assoc : (xs : List Ptr) (x : Ptr) (ws : List Ptr) → (xs ++ x ∷ []) ++ ws ≡ xs ++ x ∷ ws
append_assoc [] x ws = refl
append_assoc (y ∷ xs) x ws = ap (λ l. y ∷ l) (append_assoc xs x ws)

append_nil : (xs : List Ptr) → xs ++ [] ≡ xs
append_nil [] = refl
append_nil (y ∷ xs) = ap (λ l. y ∷ l) (append_nil xs)

has_head : (x : Ptr) (ws : List Ptr) → has x (x ∷ ws) ≡ true
has_head x ws = ground (arith, ==-refl x)

-- One round: the first of those who wait has become ready.
module _ (k : Kernel) (t a x : Ptr) (ds : List Desc) (free xs : List Ptr) (A : IsAsl k t ds free)
    (r : IsProcQ k k.ready_q xs) (apart : (c : Ptr) → has c xs ≡ true → has c (blocked ds) ≡ false)
    (ne : a ≢ null) (is_first : first (queue_of a ds) ≡ x) (waits : has x (queue_of a ds) ≡ true)
    (k1 : Kernel) (u : Unblocked t a ds free k k1) where
  abbrev k2 : Kernel
  k2 = record k {
    p_next = k1.p_next;
    p_prev = k1.p_prev;
    p_sem_add = k1.p_sem_add;
    s_next = k1.s_next;
    s_sem_add = k1.s_sem_add;
    s_proc_q = k1.s_proc_q;
    semd_free_h = k1.semd_free_h;
    soft_block_count = sub32 k.soft_block_count 1;
  }

  x_new : has x xs ≡ false
  x_new = ground (arith, apart x, queue_of-blocked a x ds waits)

  x_ne : x ≢ null
  x_ne e = ground (
    arith,
    ap (λ c. has c (blocked ds)) e,
    queue_of-blocked a x ds waits,
    null_free k t 0 (k.s_next k.semd_h) ds A.active,
  )

  ready2 : IsProcQ k2 k.ready_q xs
  ready2 = Ring-frame xs r λ c m.
      let o = u.asl_only.outside c (ground (arith, apart c m, queue_of-blocked a c ds)) in
      (o.0, o.1)

  still : (c : Ptr) → has c (xs ++ x ∷ []) ≡ true → has c (blocked u.list) ≡ false
  still c m = elim (Bool-cases (has c (blocked u.list))) [
    | inr e ↦ e
    | inl e ↦
        let o = Unblocked-blocked k k1 t a ds free A ne u c e in
        ground (arith, m, has-append c xs (x ∷ []), apart c, o.0, ap (λ y. c ≡ y) is_first)
  ]

  module _ (tp : Ptr) (n q : Ptr → Ptr) (out : Outside (x ∷ xs) k2 n q) where
    abbrev k3 : Kernel
    k3 = record k2 { p_next = n; p_prev = q; ready_q = tp }

    asl3 : IsAsl k3 t u.list u.free
    asl3 =
        IsAsl-outer k1 k3 t u.list u.free (ap (λ z. outer z k3) (sym u.asl_only.same))
          (λ c m. out c (ground (arith, m, still c, has-append c xs (x ∷ [])))) u.is_asl

    later :
        (ws : List Ptr)
        → queue_of a ds ≡ x ∷ ws
        → (k' : Kernel) → Drained t a u.list (xs ++ x ∷ []) ws k3 k'
        → Drained t a ds xs (x ∷ ws) k k'
    later ws at k' d = record {
      list = d.list;
      free = d.free;
      is_asl = d.is_asl;
      queues = λ b. ground (arith, d.queues b, u.queues b);
      ready = subst (IsProcQ k' k'.ready_q) (append_assoc xs x ws) d.ready;
      count = d.count;
      states = d.states;
      current = d.current;
      saved = d.saved;
      words = d.words;
    }

-- The loop of the pseudo-clock unblocks all pcbs that wait, and ends with one more round than pcbs.
pub unblock_waiting-Drained :
    (ws : List Ptr) (fuel : ℕ) (k : Kernel) (t a : Ptr) (ds : List Desc) (free xs : List Ptr)
    → IsAsl k t ds free
    → IsProcQ k k.ready_q xs
    → ((c : Ptr) → has c xs ≡ true → has c (blocked ds) ≡ false)
    → 0 < a
    → a ≢ null
    → a ≢ sentinel k
    → queue_of a ds ≡ ws
    → length ws < fuel
    → Returns (λ _ k'. Drained t a ds xs ws k k') (unblock_waiting fuel a k)
unfolding helper_unblock_process unblock_all
unblock_waiting-Drained ws zero k t a ds free xs A r apart pos ne ns at lt = absurd (omega arith)
unblock_waiting-Drained [] (suc fuel) k t a ds free xs A r apart pos ne ns at lt =
    elim (Returns-Ran _ (remove_blocked a k) (remove_blocked-Unblocked k t a ds free A pos ns)) [
      | ran p k1 runs (res, u) ↦
          simp (runs ∙ ap (ok p) u.asl_only.same, res ∙ ap first at)
            record {
              list = u.list;
              free = u.free;
              is_asl = subst (λ z. IsAsl z t u.list u.free) u.asl_only.same u.is_asl;
              queues = λ b. ground (arith, u.queues b, ap rest at);
              ready = subst (Ring k1.p_next k1.p_prev k.ready_q) (sym (append_nil xs)) (
                  Ring-frame xs r
                    λ c m. let o = u.asl_only.outside c (ap (has c) at) in (o.0, o.1));
              count = refl;
              states = refl;
              current = refl;
              saved = refl;
              words = refl;
            }
    ]
unblock_waiting-Drained (x ∷ ws) (suc fuel) k t a ds free xs A r apart pos ne ns at lt =
    let is_first : first (queue_of a ds) ≡ x = ap first at in
    let waits : has x (queue_of a ds) ≡ true = ap (has x) at ∙ has_head x ws in
    let shorter : length ws < fuel = omega (arith, lt) in
    elim (Returns-Ran _ (remove_blocked a k) (remove_blocked-Unblocked k t a ds free A pos ns)) [
      | ran p k1 runs (res, u) ↦
          let xne = x_ne k t a x ds free xs A r apart ne is_first waits k1 u in
          elim (insert_proc_q-run (k2 k t a x ds free xs A r apart ne is_first waits k1 u) k.ready_q
            x xs (ready2 k t a x ds free xs A r apart ne is_first waits k1 u)
            (x_new k t a x ds free xs A r apart ne is_first waits k1 u) xne) [
              | links_run tp n q runs2 (ring, is_p) out ↦
                  simp (runs ∙ ap (ok p) u.asl_only.same, res ∙ is_first, ne_null x xne, runs2)
                    (Returns-mono
                      (λ _ k'.
                        Drained t a u.list (xs ++ x ∷ []) ws
                          (k3 k t a x ds free xs A r apart ne is_first waits k1 u tp n q out) k')
                      (λ _ k'. Drained t a ds xs (x ∷ ws) k k')
                      (unblock_waiting fuel a
                        (k3 k t a x ds free xs A r apart ne is_first waits k1 u tp n q out))
                      (unblock_waiting-Drained ws fuel
                        (k3 k t a x ds free xs A r apart ne is_first waits k1 u tp n q out) t a
                        u.list u.free (xs ++ x ∷ [])
                        (asl3 k t a x ds free xs A r apart ne is_first waits k1 u tp n q out) ring
                        (still k t a x ds free xs A r apart ne is_first waits k1 u) pos ne ns
                        (u.queues a ∙ simp (==-refl a) (ap rest at)) shorter)
                      (λ b k' d.
                        later k t a x ds free xs A r apart ne is_first waits k1 u tp n q out ws at
                          k' d))
            ]
    ]

-- The clock's interrupt makes all that wait for it ready, in the order in which they wait, resets
-- its semaphore and returns to the process that was interrupted, if there is one and at most
-- MAXPROC pcbs wait. The semaphore is neither 0, `NULL` nor the tail mark, and no ready pcb is
-- blocked.
pub pseudo_clock_interrupts-Drained :
    (k : Kernel) (t a : Ptr) (ds : List Desc) (free xs : List Ptr)
    → a ≡ int_elem k.layout.device_sem pseudo_clock_idx
    → IsAsl k t ds free
    → IsProcQ k k.ready_q xs
    → ((c : Ptr) → has c xs ≡ true → has c (blocked ds) ≡ false)
    → 0 < a
    → a ≢ null
    → a ≢ sentinel k
    → length (queue_of a ds) ≤ maxproc
    → k.current_p ≢ null
    → Leaves
        (λ e k'.
          (e ≡ ldst k.bios)
          × (k'.words a ≡ 0)
          × Drained t a ds xs (queue_of a ds) (record k { words = k'.words }) k')
        (pseudo_clock_interrupts k)
unfolding pseudo_clock_interrupts
pseudo_clock_interrupts-Drained k t a ds free xs clock A r apart pos ne ns fits cur =
    let k0 = record k { words = upd k.words intervaltmr (mul32 100000 (k.words timescaleaddr)) } in
    elim (Returns-Ran _ (unblock_waiting (maxproc + 1) a k0) (
      unblock_waiting-Drained (queue_of a ds) (maxproc + 1) k0 t a ds free xs
        (IsAsl-outer k k0 t ds free refl (λ c m. (refl, refl)) A) r apart pos ne ns refl
        (omega (arith, fits)))) [
          | ran b k1 runs d ↦
              simp (sym clock, runs, ne_null a ne, d.current, ne_null k.current_p cur)
                (
                  ap ldst d.saved,
                  simp (==-refl a) refl,
                  record {
                    list = d.list;
                    free = d.free;
                    is_asl =
                        IsAsl-outer k1
                          (record k1 { current_p = k.current_p; words = upd k1.words a 0 }) t d.list
                          d.free refl (λ c m. (refl, refl)) d.is_asl;
                    queues = d.queues;
                    ready = d.ready;
                    count = d.count;
                    states = d.states;
                    current = refl;
                    saved = d.saved;
                    words = refl;
                  },
                )
        ]
