-- ===== src/Asl/Insert.antt =====
-- `insertBlocked` of phase1/asl.c: the pcb joins the queue of a descriptor on the list.
pub mod Link
pub mod Blocked
use operating_system_cs.Base.{
  ℕ, ◌<◌, ◌≡◌, ◌≢◌, refl, sym, ap, ◌∙◌, List, [], ◌∷◌, ◌++◌, true, false, arith, has, has-append,
  upd, ne_of_has, inl,
}
use operating_system_cs.Ring.{Ptr, null, Field, Ring, Ring-at}
use operating_system_cs.Kernel.{Kernel}
use operating_system_cs.Kernel.Run.{Returns, ok, ne_null}
use operating_system_cs.Pcb.Queue.Explicit.{LinksRun, links_run, Outside, insert_proc_q-run}
use operating_system_cs.Asl.Defs.{enqueue_blocked}
use operating_system_cs.Asl.List.{Desc, blocked, IsDesc, IsAsl}
use operating_system_cs.Asl.Queues.{with_queue}
use operating_system_cs.Asl.Traverse.{below, from, pred_of}
use operating_system_cs.Asl.Focus.{In, In-blocked}
use operating_system_cs.Asl.Requeue.{
  AslOnly, place, rest_at, In-rest, other_queue, requeued, requeued-IsAsl,
}

-- A descriptor with one more pcb in its queue.
abbrev pub join : Desc → Ptr → Desc
join d p = with_queue d (d.queue ++ p ∷ [])

module _ (k : Kernel) (t a p : Ptr) (ds : List Desc) (free : List Ptr) (A : IsAsl k t ds free)
    (pos : 0 < a) (d : Desc) (vs : List Desc) (at : from a ds ≡ d ∷ vs) (is : d.sem ≡ a)
    (ne : p ≢ null) (new : has p (blocked ds) ≡ false) where
  spare :
      (e : Desc)
      → In e ds
      → e.sem ≢ a
      → IsDesc k e
      → (c : Ptr) → has c e.queue ≡ true
      → has c (p ∷ d.queue) ≡ false
  spare e i apart h c m = ground (
    arith,
    In-blocked e ds p i new,
    ne_of_has p c e.queue,
    other_queue k t a ds free A pos d vs at is e apart h c m,
  )

  -- The end of `insertBlocked`, at a descriptor that is on the list.
  pub enqueue_blocked-join :
      Returns
        (λ r k'.
          (r ≡ false) × IsAsl k' t (below a ds ++ join d p ∷ vs) free × AslOnly (p ∷ d.queue) k k')
        (enqueue_blocked (pred_of a k.semd_h ds) a p k)
  unfolding enqueue_blocked requeued
  enqueue_blocked-join =
      let act = rest_at k t a ds free A pos d vs at is in
      elim (insert_proc_q-run k (k.s_proc_q d.addr) p d.queue act.2.ring
        (In-blocked d ds p (In-rest k t a ds free A pos d vs at is d (inl refl)) new) ne) [
          | links_run tp' n' p' runs (ring, tail) out ↦
              simp
                (
                  ne_null (pred_of a k.semd_h ds) (place k t a ds free A pos d vs at is).not_null,
                  act.0,
                  ne_null d.addr act.2.not_null,
                  runs,
                  tail,
                  ne_null p ne,
                )
                (
                  refl,
                  requeued-IsAsl k t a ds free A pos d vs at is (d.queue ++ p ∷ []) (p ∷ d.queue) n'
                      p' (upd k.p_sem_add p a) p (Ring-at ring (sym tail)) out (λ c m. ground arith)
                      spare (λ c m. ground (arith, has-append c d.queue (p ∷ []), act.2.waiting c)),
                  record { same = refl; outside = λ c m. ground (arith, out c m) },
                )
        ]
