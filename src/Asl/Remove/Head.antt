-- ===== src/Asl/Remove/Head.antt =====
-- `headBlocked` of phase1/asl.c.
use operating_system_cs.Base.{
  ◌<◌, ◌≡◌, ◌≢◌, refl, sym, ap, List, [], ◌∷◌, has, ==-refl, Bool-cases, inl, inr,
}
use mathlib.Core.Path.{subst}
use operating_system_cs.Ring.{Ptr, Ring}
use operating_system_cs.Kernel.{Kernel}
use operating_system_cs.Kernel.Run.{ok, ne_null}
use operating_system_cs.Pcb.Defs.{empty_proc_q}
use operating_system_cs.Pcb.Queue.{first, tail_ne}
use operating_system_cs.Asl.Defs.{sentinel, head_blocked}
use operating_system_cs.Asl.List.{Desc, sems, queue_of, IsAsl}
use operating_system_cs.Asl.Traverse.{from, pred_of, lo_of, traverse_asl-pred}
use operating_system_cs.Asl.Queues.{queue_of-absent, found, from-Found, Active-other, not-has-from}
use operating_system_cs.Asl.Remove.Absent.{place}
use operating_system_cs.Asl.Remove.Listed.{act, queue_is}

-- `headBlocked` returns the first pcb that is blocked on the semaphore, `NULL` if there is none,
-- and changes nothing. The semaphore is neither 0 nor the tail mark.
pub head_blocked-first :
    (k : Kernel) (t a : Ptr) (ds : List Desc) (free : List Ptr)
    → IsAsl k t ds free
    → 0 < a
    → a ≢ sentinel k
    → head_blocked a k ≡ ok (first (queue_of a ds)) k
unfolding head_blocked empty_proc_q
head_blocked-first k t a ds free A pos ns = elim (Bool-cases (has a (sems ds))) [
  | inl h ↦ elim (from-Found k t 0 (k.s_next k.semd_h) a ds A.active h) [
    | found d vs at is ↦ heads d vs at is d.queue refl
  ]
  | inr h ↦
      let pl = place k t a ds free A pos in
      let o =
        Active-other k t (lo_of a 0 ds) (k.s_next (pred_of a k.semd_h ds)) a (from a ds) pl.rest
          A.tail_not_null A.tail_sem ns (not-has-from a ds h) in
      simp
        (
          traverse_asl-pred k t a ds free A,
          ne_null (pred_of a k.semd_h ds) pl.not_null,
          ne_null (k.s_next (pred_of a k.semd_h ds)) o.0,
          o.1,
        )
        (ap (λ q. ok (first q) k) (sym (queue_of-absent a ds h)))
]
  where
    heads :
        (d : Desc) (vs : List Desc)
        → from a ds ≡ d ∷ vs
        → d.sem ≡ a
        → (q : List Ptr) → d.queue ≡ q
        → head_blocked a k ≡ ok (first (queue_of a ds)) k
    heads d vs at is [] e =
        let ac = act k t a ds free A pos d vs at is in
        let r = subst (Ring k.p_next k.p_prev (k.s_proc_q d.addr)) e ac.2.ring in
        simp
          (
            traverse_asl-pred k t a ds free A,
            ne_null (pred_of a k.semd_h ds) (place k t a ds free A pos).not_null,
            ac.0,
            ne_null d.addr ac.2.not_null,
            ac.2.sem_add,
            is,
            ==-refl a,
            r.tail,
            queue_is k t a ds free A pos d vs at is,
            e,
          )
          refl
    heads d vs at is (x ∷ xs) e =
        let ac = act k t a ds free A pos d vs at is in
        let r = subst (Ring k.p_next k.p_prev (k.s_proc_q d.addr)) e ac.2.ring in
        simp
          (
            traverse_asl-pred k t a ds free A,
            ne_null (pred_of a k.semd_h ds) (place k t a ds free A pos).not_null,
            ac.0,
            ne_null d.addr ac.2.not_null,
            ac.2.sem_add,
            is,
            ==-refl a,
            ne_null (k.s_proc_q d.addr) (tail_ne x xs r),
            r.links.0,
            queue_is k t a ds free A pos d vs at is,
            e,
          )
          refl
