-- ===== src/Asl/Remove.antt =====
-- `removeBlocked` of phase1/asl.c; `Head` and `Out` are about `headBlocked` and `outBlocked`.
pub mod Release
pub mod Absent
pub mod Listed
pub mod Head
pub mod Out
use operating_system_cs.Base.{
  ℕ, ◌<◌, ◌≡◌, ◌≢◌, refl, sym, ap, ◌∙◌, List, [], ◌∷◌, ◌++◌, true, false, arith, has, has-last, upd,
  if◌then◌else◌, ◌==◌, ==-refl, Bool-cases, inl, inr, Distinct, eq_of_has,
}
use mathlib.Core.Path.{subst}
use operating_system_cs.Ring.{Ptr, null, Field, Ring}
use operating_system_cs.Kernel.{Kernel}
use operating_system_cs.Kernel.Run.{Returns, ok, ne_null, ◌>>◌, pure}
use operating_system_cs.Pcb.Defs.{remove_proc_q, empty_proc_q}
use operating_system_cs.Pcb.Queue.{first, rest, tail_ne}
use operating_system_cs.Pcb.Queue.Explicit.{
  with_links, LinksRun, links_run, Outside, remove_proc_q-run,
}
use operating_system_cs.Asl.Defs.{sentinel, release_semd, remove_blocked, head_blocked}
use operating_system_cs.Asl.List.{Desc, sems, queue_of, IsDesc, Active, IsAsl}
use operating_system_cs.Asl.Traverse.{
  below, from, pred_of, lo_of, Place, Active-Place, traverse_asl-pred, below-append-from,
}
use operating_system_cs.Asl.Focus.{from-replaced, below-replaced, pred_of-replaced}
use operating_system_cs.Asl.Queues.{
  with_queue, not-has-below, queue_of-with_queue, queue_of-at, queue_of-absent, queue_of-empty,
  found, from-Found, Active-other, Active-lt, not-has-from, sems-append,
}
use operating_system_cs.Asl.Requeue.{AslOnly, rest_at, other_queue, requeued, requeued-IsAsl}
use operating_system_cs.Asl.Remove.Release.{released, release_semd-released, released-IsAsl}
use operating_system_cs.Asl.Remove.Absent.{Unblocked, absent}
use operating_system_cs.Asl.Remove.Listed.{listed}

-- `removeBlocked` on a semaphore that is neither 0 nor the tail mark returns the first pcb blocked
-- there, NULL if there is none, resets its p_semAdd and takes it out of the queue. If it was the only
-- one there, the descriptor leaves the list and is the first free one; all other descriptors stay as
-- they are, the list stays well formed and the other queues stay.
pub remove_blocked-Unblocked :
    (k : Kernel) (t a : Ptr) (ds : List Desc) (free : List Ptr)
    → IsAsl k t ds free
    → 0 < a
    → a ≢ sentinel k
    → Returns
        (λ r k'. (r ≡ first (queue_of a ds)) × Unblocked t a ds free k k')
        (remove_blocked a k)
remove_blocked-Unblocked k t a ds free A pos ns = elim (Bool-cases (has a (sems ds))) [
  | inl h ↦ elim (from-Found k t 0 (k.s_next k.semd_h) a ds A.active h) [
    | found d vs at is ↦ listed k t a ds free A pos d vs at is
  ]
  | inr h ↦ absent k t a ds free A pos ns h
]
