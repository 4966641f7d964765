-- ===== src/Interrupts/Timer.antt =====
-- `process_local_timer_interrupts` of phase2/interrupts.c: the round robin.
use operating_system_cs.Base.{
  ◌≡◌, ◌≢◌, sym, ap, ◌∙◌, List, [], ◌∷◌, ◌++◌, false, has, ==-refl, arith, upd, add32, sub32,
}
use mathlib.Core.Path.{subst}
use operating_system_cs.Ring.{Ptr, null}
use operating_system_cs.Kernel.{Kernel}
use operating_system_cs.Kernel.Const.{time_slice}
use operating_system_cs.Kernel.Run.{Exit, Leaves, Leaves-mono, ldst, ne_null}
use operating_system_cs.Pcb.Queue.{IsProcQ, first, rest}
use operating_system_cs.Pcb.Queue.Explicit.{links_run, insert_proc_q-run, with_links}
use operating_system_cs.Scheduler.Dispatch.{Dispatched, scheduler-next}
use operating_system_cs.Scheduler.Defs.{scheduler}
use operating_system_cs.Exceptions.Copy.{SameState, deep_copy_state_t, deep_copy_state_t-SameState}
use operating_system_cs.Interrupts.Defs.{process_local_timer_interrupts}

first_append :
    (xs : List Ptr) (p : Ptr) → has null xs ≡ false → p ≢ null → first (xs ++ p ∷ []) ≢ null
first_append [] p h ne = ne
first_append (x ∷ xs) p h ne = ground (arith, h)

-- The current process stands behind the ready processes, and their head runs.
abbrev pub RoundRobin : Kernel → List Ptr → Exit → Kernel → Type 0
RoundRobin k xs e k' =
    (k'.current_p ≡ first (xs ++ k.current_p ∷ []))
    × (e ≡ ldst (k'.p_s k'.current_p))
    × IsProcQ k' k'.ready_q (rest (xs ++ k.current_p ∷ []))
    × SameState (k'.p_s k.current_p) k.bios
    × (k'.timer ≡ time_slice)

-- When a process runs that is not ready too, it goes behind the ready processes with the state of
-- the interrupt, and the process that has waited longest runs for a new time slice.
pub process_local_timer_interrupts-RoundRobin :
    (k : Kernel) (xs : List Ptr)
    → IsProcQ k k.ready_q xs
    → has k.current_p xs ≡ false
    → k.current_p ≢ null
    → Leaves (RoundRobin k xs) (process_local_timer_interrupts k)
unfolding process_local_timer_interrupts
process_local_timer_interrupts-RoundRobin k xs r new ne =
    let p = k.current_p in
    let saved = deep_copy_state_t (k.p_s p) k.bios in
    let k0 = record k {
      timer = 5000;
      p_s = upd k.p_s p saved;
      p_time = upd k.p_time p (add32 (k.p_time p) (sub32 5000 5000));
    } in
    elim (insert_proc_q-run k0 k.ready_q p xs r new ne) [
      | links_run tp n q runs (ring, is_p) out ↦
          let k1 = record (with_links k0 n q) { ready_q = tp } in
          simp (ne_null p ne, runs)
            (Leaves-mono (Dispatched k1 (xs ++ p ∷ [])) (RoundRobin k xs) (scheduler k1)
              (scheduler-next k1 (xs ++ p ∷ []) ring (first_append xs p r.no_null ne))
              (λ e k' h. (
                h.1,
                h.0 ∙ ap ldst (ap (λ s. s (first (xs ++ p ∷ []))) (sym h.4) ∙ ap k'.p_s (sym h.1)),
                h.2,
                subst (λ s. SameState (s p) k.bios) (sym h.4)
                    (simp (==-refl p) (deep_copy_state_t-SameState (k.p_s p) k.bios)),
                h.3,
              )))
    ]
