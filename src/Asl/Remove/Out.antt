-- ===== src/Asl/Remove/Out.antt =====
-- `outBlocked` of phase1/asl.c. It takes a pcb out of the queue that the pcb names, and leaves the
-- descriptor on the list and `p_semAdd` set, also when the queue is empty after it.
use operating_system_cs.Base.{
  ◌<◌, ◌≤◌, ◌≡◌, ◌≢◌, refl, sym, ap, ◌∙◌, List, [], ◌∷◌, ◌++◌, true, arith, has, if◌then◌else◌,
  ◌==◌, ==-refl, erase, length, Bool-cases, inl, inr,
}
use mathlib.Core.Path.{subst}
use operating_system_cs.Ring.{Ptr, null, Field, Ring}
use operating_system_cs.Kernel.{Kernel}
use operating_system_cs.Kernel.Const.{maxproc}
use operating_system_cs.Kernel.Run.{Returns, ne_null}
use operating_system_cs.Pcb.Defs.{empty_proc_q}
use operating_system_cs.Pcb.Queue.{tail_ne}
use operating_system_cs.Pcb.Queue.Explicit.{links_run, out_proc_q-run}
use operating_system_cs.Asl.Defs.{out_blocked}
use operating_system_cs.Asl.List.{Desc, sems, queue_of, IsAsl}
use operating_system_cs.Asl.Traverse.{below, from, pred_of, traverse_asl-pred, below-append-from}
use operating_system_cs.Asl.Queues.{
  with_queue, not-has-below, queue_of-with_queue, queue_of-at, found, from-Found,
}
use operating_system_cs.Asl.Requeue.{place, rest_at, other_queue, requeued, requeued-IsAsl}

-- The pcb `p` has left the queue of the semaphore `a`; the semaphores on the list are the same.
pub record OutOf (t a p : Ptr) (ds : List Desc) (free : List Ptr) (k k' : Kernel) : Type 0 where
  pub list : List Desc
  pub is_asl : IsAsl k' t list free
  pub queues :
      (b : Ptr) → queue_of b list ≡ (if b == a then erase p (queue_of a ds) else queue_of b ds)
  pub sem_add : k'.p_sem_add ≡ k.p_sem_add

tail_of :
    {n q : Field} {tp : Ptr} (p : Ptr) (xs : List Ptr)
    → Ring n q tp xs
    → has p xs ≡ true
    → tp ≢ null
tail_of p [] r m = cc
tail_of p (x ∷ xs) r m = tail_ne x xs r

has-erase_old : (c p : Ptr) (xs : List Ptr) → has c (erase p xs) ≡ true → has c xs ≡ true
has-erase_old c p [] h = h
has-erase_old c p (x ∷ xs) h = elim (Bool-cases (x == p)) [
  | inl e ↦ ground (arith, h, e, has-erase_old c p xs)
  | inr e ↦ ground (arith, h, e, has-erase_old c p xs)
]

module _ (k : Kernel) (t p : Ptr) (ds : List Desc) (free : List Ptr) (A : IsAsl k t ds free)
    (ne : p ≢ null) (pos : 0 < k.p_sem_add p) (m : has p (queue_of (k.p_sem_add p) ds) ≡ true)
    (fits : length (queue_of (k.p_sem_add p) ds) ≤ maxproc) (d : Desc) (vs : List Desc)
    (at : from (k.p_sem_add p) ds ≡ d ∷ vs) (is : d.sem ≡ k.p_sem_add p) where
  abbrev a : Ptr
  a = k.p_sem_add p

  split : below a ds ++ d ∷ vs ≡ ds
  split = subst (λ l. below a ds ++ l ≡ ds) at (below-append-from a ds)

  queue_is : queue_of a ds ≡ d.queue
  queue_is =
      subst (λ l. queue_of a l ≡ d.queue) split
        (queue_of-at a d (below a ds) vs (not-has-below a ds) is)

  member : has p d.queue ≡ true
  member = ap (has p) (sym queue_is) ∙ m

  taken : Returns (λ r k'. (r ≡ p) × OutOf t a p ds free k k') (out_blocked p k)
  unfolding out_blocked empty_proc_q requeued
  taken =
      let ac = rest_at k t a ds free A pos d vs at is in
      elim (out_proc_q-run k (k.s_proc_q d.addr) p d.queue ac.2.ring
        (subst (λ q. length q ≤ maxproc) queue_is fits) member) [
          | links_run o n' p' runs (res, ring) out ↦
              simp
                (
                  ne_null p ne,
                  traverse_asl-pred k t a ds free A,
                  ne_null (pred_of a k.semd_h ds) (place k t a ds free A pos d vs at is).not_null,
                  ac.0,
                  ne_null d.addr ac.2.not_null,
                  ac.2.sem_add,
                  is,
                  ==-refl a,
                  ne_null (k.s_proc_q d.addr) (tail_of p d.queue ac.2.ring member),
                  runs,
                )
                (
                  res,
                  record {
                    list = below a ds ++ with_queue d (erase p d.queue) ∷ vs;
                    is_asl =
                        requeued-IsAsl k t a ds free A pos d vs at is (erase p d.queue) d.queue n'
                          p' k.p_sem_add o.1 ring out (λ c h. refl)
                          (λ e i. other_queue k t a ds free A pos d vs at is e)
                          (λ c h. ac.2.waiting c (has-erase_old c p d.queue h) ∙ is);
                    queues = λ b.
                        queue_of-with_queue a b d (erase p d.queue) (below a ds) vs
                          (not-has-below a ds) is
                        ∙ ap (λ l. if b == a then erase p d.queue else queue_of b l) split
                        ∙ ap (λ q. if b == a then erase p q else queue_of b ds) (sym queue_is);
                    sem_add = refl;
                  },
                )
        ]

-- `outBlocked` of a pcb that stands in the queue of its semaphore, a queue of at most MAXPROC
-- pcbs, returns the pcb and takes it out of the queue, wherever it stands there. The semaphore is
-- not 0.
pub out_blocked-OutOf :
    (k : Kernel) (t p : Ptr) (ds : List Desc) (free : List Ptr)
    → IsAsl k t ds free
    → p ≢ null
    → 0 < k.p_sem_add p
    → has (k.p_sem_add p) (sems ds) ≡ true
    → has p (queue_of (k.p_sem_add p) ds) ≡ true
    → length (queue_of (k.p_sem_add p) ds) ≤ maxproc
    → Returns (λ r k'. (r ≡ p) × OutOf t (k.p_sem_add p) p ds free k k') (out_blocked p k)
out_blocked-OutOf k t p ds free A ne pos on m fits =
    elim (from-Found k t 0 (k.s_next k.semd_h) (k.p_sem_add p) ds A.active on) [
      | found d vs at is ↦ taken k t p ds free A ne pos m fits d vs at is
    ]
