-- ===== src/Exceptions/Semaphores.antt =====
-- The P operation (SYS3, `PASSEREN` of phase2/exceptions.c).
use operating_system_cs.Base.{
  ◌<◌, ◌≡◌, ◌≢◌, refl, sym, ap, ◌∙◌, ◌⊎◌, List, [], ◌∷◌, ◌++◌, true, false, has, upd, add32, sub32,
  is_neg, if◌then◌else◌, ◌==◌, ==-refl, arith,
}
use mathlib.Core.Path.{subst}
use operating_system_cs.Ring.{Ptr, null, Ring, Ring-frame}
use operating_system_cs.Kernel.{State, Kernel}
use operating_system_cs.Kernel.Const.{a1, wordlen}
use operating_system_cs.Kernel.Run.{
  Run, Cmd, and_then, leave, fault, out_of_fuel, Exit, Leaves, Leaves-mono, ldst, ok, ne_null,
  Returns-Ran, ran,
}
use operating_system_cs.Pcb.Queue.{IsProcQ}
use operating_system_cs.Asl.Defs.{sentinel, insert_blocked}
use operating_system_cs.Asl.List.{Desc, sems, blocked, queue_of, IsAsl}
use operating_system_cs.Asl.Frame.{IsAsl-outer, outer, queue_of-blocked}
use operating_system_cs.Asl.Insert.Blocked.{Joined, insert_blocked-Joined}
use operating_system_cs.Scheduler.Defs.{scheduler}
use operating_system_cs.Scheduler.Dispatch.{Dispatched, scheduler-dispatch}
use operating_system_cs.Exceptions.Copy.{SameState, deep_copy_state_t, deep_copy_state_t-SameState}
use operating_system_cs.Exceptions.Defs.{passeren, helper_blocking_syscall_handler}

-- What a command does that does not return is all that happens.
pub then_ends :
    (P : Exit → Kernel → Type 0) (r : Run (Unit {0})) (n : Cmd (Unit {0}))
    → Leaves P r
    → Leaves P (and_then r λ _. n)
then_ends P (ok a k) n h = absurd h
then_ends P (leave e k) n h = h
then_ends P fault n h = absurd h
then_ends P out_of_fuel n h = absurd h

-- The saved state behind the system call instruction.
abbrev pub next_state : State → State
next_state s = record s { s_pc = add32 s.s_pc wordlen }

-- The caller `p` waits for the semaphore `a` with its state saved, and `x` has the processor.
pub record Waits (t a p x : Ptr) (xs : List Ptr) (ds : List Desc) (k : Kernel) (e : Exit)
    (k' : Kernel) : Type 0 where
  pub exit : e ≡ ldst (k.p_s x)
  pub current : k'.current_p ≡ x
  pub ready : IsProcQ k' k'.ready_q xs
  pub list : List Desc
  pub free : List Ptr
  pub is_asl : IsAsl k' t list free
  pub queues :
      (b : Ptr) → queue_of b list ≡ (if b == a then queue_of a ds ++ p ∷ [] else queue_of b ds)
  pub saved : SameState (k'.p_s p) (next_state k.bios)
  pub value : k'.words a ≡ sub32 (k.words a) 1

module _ (k : Kernel) (t x : Ptr) (xs : List Ptr) (ds : List Desc) (free : List Ptr)
    (A : IsAsl k t ds free) (cur : k.current_p ≢ null) (r : IsProcQ k k.ready_q (x ∷ xs))
    (apart : (c : Ptr) → has c (x ∷ xs) ≡ true → has c (k.current_p ∷ blocked ds) ≡ false) where
  abbrev a : Ptr
  a = k.bios.s_reg a1

  abbrev p : Ptr
  p = k.current_p

  abbrev k0 : Kernel
  k0 = record k { words = upd k.words a (sub32 (k.words a) 1) }

  -- What `scheduler` starts from.
  module _ (k1 : Kernel) (j : Joined t a p ds k0 k1) where
    abbrev k2 : Kernel
    k2 = record k1 {
      current_p = p;
      bios = next_state k.bios;
      p_s = upd k1.p_s p (deep_copy_state_t (k1.p_s p) (next_state k.bios));
      p_time = upd k1.p_time p (add32 (k1.p_time p) (sub32 5000 k1.timer));
    }

    kept : (c : Ptr) → has c (x ∷ xs) ≡ true → has c (p ∷ queue_of a ds) ≡ false
    kept c m = ground (arith, apart c m, queue_of-blocked a c ds)

    ready2 : IsProcQ k2 k2.ready_q (x ∷ xs)
    ready2 =
        subst (λ tp. Ring k1.p_next k1.p_prev tp (x ∷ xs))
          (ap (λ (z : Kernel). z.ready_q) (sym j.asl_only.same))
          (Ring-frame (x ∷ xs) r λ c m. let o = j.asl_only.outside c (kept c m) in (o.0, o.1))

    asl2 : IsAsl k2 t j.list j.free
    asl2 = IsAsl-outer k1 k2 t j.list j.free refl (λ c m. (refl, refl)) j.is_asl

    x_apart : (x == p) ≡ false
    x_apart = ground (arith, apart x, ==-refl x)

    finish : (e : Exit) (k' : Kernel) → Dispatched k2 (x ∷ xs) e k' → Waits t a p x xs ds k e k'
    finish e k' h = record {
      exit = h.0 ∙ ap ldst (simp x_apart (ap (λ (z : Kernel). z.p_s x) j.asl_only.same));
      current = h.1;
      ready = h.2;
      list = j.list;
      free = j.free;
      is_asl =
          IsAsl-outer k2 k' t j.list j.free (h.5 ∙ ap (λ z. outer k2 z) (sym h.5))
            (λ c m. h.6 c (ground (arith, m, j.members c, apart c))) asl2;
      queues = j.queues;
      saved =
          subst (λ s. SameState (s p) (next_state k.bios)) (sym h.4)
            (simp (==-refl p) (deep_copy_state_t-SameState (k1.p_s p) (next_state k.bios)));
      value =
          ap (λ (z : Kernel). z.words a) h.5
          ∙ ap (λ (z : Kernel). z.words a) j.asl_only.same
          ∙ simp (==-refl a) refl;
    }

    waits : Leaves (Waits t a p x xs ds k) (helper_blocking_syscall_handler k1)
    unfolding helper_blocking_syscall_handler
    waits =
        simp
          (
            ap (λ (z : Kernel). z.current_p) j.asl_only.same,
            ap (λ (z : Kernel). z.bios) j.asl_only.same,
            ne_null p cur,
          )
          (Leaves-mono (Dispatched k2 (x ∷ xs)) (Waits t a p x xs ds k) (scheduler k2)
            (scheduler-dispatch k2 x xs ready2) (λ e k' h. finish e k' h))

-- A P operation that takes the semaphore below 0 blocks the caller behind those who wait already,
-- with its state saved, and the head of the ready queue runs; all other queues stay. The
-- semaphore is neither 0, `NULL` nor the tail mark; the caller is blocked nowhere, ready pcbs are
-- neither blocked nor the caller, and the semaphore is on the list or a descriptor is free.
pub passeren-blocks :
    (k : Kernel) (t x : Ptr) (xs : List Ptr) (ds : List Desc) (free : List Ptr)
    → IsAsl k t ds free
    → IsProcQ k k.ready_q (x ∷ xs)
    → ((c : Ptr) → has c (x ∷ xs) ≡ true → has c (k.current_p ∷ blocked ds) ≡ false)
    → k.current_p ≢ null
    → has k.current_p (blocked ds) ≡ false
    → 0 < k.bios.s_reg a1
    → k.bios.s_reg a1 ≢ null
    → k.bios.s_reg a1 ≢ sentinel k
    → (has (k.bios.s_reg a1) (sems ds) ≡ true) ⊎ (free ≢ [])
    → is_neg (sub32 (k.words (k.bios.s_reg a1)) 1) ≡ true
    → Leaves (Waits t (k.bios.s_reg a1) k.current_p x xs ds k) (passeren k)
unfolding passeren
passeren-blocks k t x xs ds free A r apart cur new pos ne ns room low =
    let a = k.bios.s_reg a1 in
    let k0 = record k { words = upd k.words a (sub32 (k.words a) 1) } in
    elim (Returns-Ran _ (insert_blocked a k.current_p k0) (
      insert_blocked-Joined k0 t a k.current_p ds free
        (IsAsl-outer k k0 t ds free refl (λ c m. (refl, refl)) A) pos ns cur new room)) [
          | ran b k1 runs (res, j) ↦
              simp (ne_null a ne, ==-refl a, low, runs)
                (then_ends _ (helper_blocking_syscall_handler k1) _
                  (waits k t x xs ds free A cur r apart k1 j))
        ]
