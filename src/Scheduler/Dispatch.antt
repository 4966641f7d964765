-- ===== src/Scheduler/Dispatch.antt =====
-- The dispatch of the head of the ready queue (phase2/scheduler.c).
use operating_system_cs.Base.{◌≡◌, ◌≢◌, refl, List, [], ◌∷◌}
use operating_system_cs.Ring.{Ptr, null}
use operating_system_cs.Kernel.{Kernel}
use operating_system_cs.Kernel.Const.{time_slice}
use operating_system_cs.Kernel.Run.{Exit, Leaves, ldst, ne_null}
use operating_system_cs.Pcb.Queue.{IsProcQ, first, rest, head_ne}
use operating_system_cs.Pcb.Queue.Explicit.{links_run, remove_proc_q-run, Outside}
use operating_system_cs.Scheduler.Defs.{scheduler}

-- The processor gets the state of the head of `ys`, which is the current process from now on.
abbrev pub Dispatched : Kernel → List Ptr → Exit → Kernel → Type 0
Dispatched k ys e k' =
    (e ≡ ldst (k.p_s (first ys)))
    × (k'.current_p ≡ first ys)
    × IsProcQ k' k'.ready_q (rest ys)
    × (k'.timer ≡ time_slice)
    × (k'.p_s ≡ k.p_s)
    × (k' ≡ record k {
      p_next = k'.p_next;
      p_prev = k'.p_prev;
      ready_q = k'.ready_q;
      current_p = k'.current_p;
      timer = k'.timer;
    })
    × Outside ys k k'.p_next k'.p_prev

-- The head of the ready queue runs for a time slice, and has left the queue.
pub scheduler-dispatch :
    (k : Kernel) (x : Ptr) (xs : List Ptr)
    → IsProcQ k k.ready_q (x ∷ xs)
    → Leaves (Dispatched k (x ∷ xs)) (scheduler k)
unfolding scheduler
scheduler-dispatch k x xs r = elim (remove_proc_q-run k k.ready_q (x ∷ xs) r) [
  | links_run o n p runs (res, ring) out ↦
      simp (runs, res, ne_null x (head_ne x xs r)) (refl, refl, ring, refl, refl, refl, out)
]

-- The same for a queue of which only the head is known not to be `NULL`.
pub scheduler-next :
    (k : Kernel) (ys : List Ptr)
    → IsProcQ k k.ready_q ys
    → first ys ≢ null
    → Leaves (Dispatched k ys) (scheduler k)
scheduler-next k [] r ne = absurd (ne refl)
scheduler-next k (x ∷ xs) r ne = scheduler-dispatch k x xs r
