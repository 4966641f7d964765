-- ===== src/Asl/Remove/Listed.antt =====
-- `removeBlocked` of phase1/asl.c on a semaphore that is on the list.
use operating_system_cs.Base.{
  ◌<◌, ◌≡◌, ◌≢◌, refl, sym, ap, ◌∙◌, List, [], ◌∷◌, ◌++◌, true, false, arith, has, has-last, upd,
  if◌then◌else◌, ◌==◌, ==-refl, Bool-cases, inl, inr, eq_of_has,
}
use mathlib.Core.Path.{subst}
use operating_system_cs.Ring.{Ptr, null, Field, Ring}
use operating_system_cs.Kernel.{Kernel}
use operating_system_cs.Kernel.Run.{Returns, ok, ne_null, ◌>>◌, pure}
use operating_system_cs.Pcb.Defs.{remove_proc_q, empty_proc_q}
use operating_system_cs.Pcb.Queue.{first, rest}
use operating_system_cs.Pcb.Queue.Explicit.{with_links, links_run, Outside, remove_proc_q-run}
use operating_system_cs.Asl.Defs.{release_semd, remove_blocked}
use operating_system_cs.Asl.List.{Desc, sems, queue_of, Active, IsAsl}
use operating_system_cs.Asl.Traverse.{
  below, from, pred_of, lo_of, traverse_asl-pred, below-append-from,
}
use operating_system_cs.Asl.Focus.{from-replaced, below-replaced, pred_of-replaced}
use operating_system_cs.Asl.Queues.{
  dequeued, vacated, shortened, emptied, dequeued-at, shortened-none, shortened-last,
  shortened-more, with_queue, not-has-below, queue_of-with_queue, queue_of-at, queue_of-empty,
  Active-lt, sems-append,
}
use operating_system_cs.Asl.Requeue.{AslOnly, rest_at, other_queue, requeued, requeued-IsAsl}
use operating_system_cs.Asl.Remove.Release.{released, release_semd-released, released-IsAsl}
use operating_system_cs.Asl.Remove.Absent.{Unblocked, place, has-rest, has-first, first-out}

-- The semaphore is on the list, at the descriptor `d`.
module _ (k : Kernel) (t a : Ptr) (ds : List Desc) (free : List Ptr) (A : IsAsl k t ds free)
    (pos : 0 < a) (d : Desc) (vs : List Desc) (at : from a ds ≡ d ∷ vs) (is : d.sem ≡ a) where
  pub act : Active k t (lo_of a 0 ds) (k.s_next (pred_of a k.semd_h ds)) (d ∷ vs)
  act = rest_at k t a ds free A pos d vs at is

  split : below a ds ++ d ∷ vs ≡ ds
  split = subst (λ l. below a ds ++ l ≡ ds) at (below-append-from a ds)

  pub queue_is : queue_of a ds ≡ d.queue
  queue_is =
      subst (λ l. queue_of a l ≡ d.queue) split
        (queue_of-at a d (below a ds) vs (not-has-below a ds) is)

  list_at :
      (dequeued a ds ≡ below a ds ++ shortened d.queue d vs)
      × (vacated a ds ≡ emptied d.queue d.addr)
  list_at =
      subst
        (λ l.
          (dequeued a l ≡ below a ds ++ shortened d.queue d vs)
          × (vacated a l ≡ emptied d.queue d.addr))
        split (dequeued-at a d (below a ds) vs (not-has-below a ds) is)

  queues_with :
      (q : List Ptr) (b : Ptr)
      → queue_of b (below a ds ++ with_queue d q ∷ vs) ≡ (if b == a then q else queue_of b ds)
  queues_with q b =
      queue_of-with_queue a b d q (below a ds) vs (not-has-below a ds) is
      ∙ ap (λ l. if b == a then q else queue_of b l) split

  abbrev Result : Ptr → Kernel → Type 0
  Result r k' = (r ≡ first (queue_of a ds)) × Unblocked t a ds free k k'

  -- The memory when the head has left the queue, with `p_semAdd` as `sem'`.
  module _ (n' p' sem' : Field) (tp' : Ptr) (r : Ring n' p' tp' (rest d.queue))
      (out : Outside d.queue k n' p')
      (sem_out : (c : Ptr) → has c d.queue ≡ false → sem' c ≡ k.p_sem_add c)
      (wait : (c : Ptr) → has c (rest d.queue) ≡ true → sem' c ≡ a) where
    without_head : Kernel
    unfolding requeued
    without_head = record k {
      p_next = n';
      p_prev = p';
      s_proc_q = upd k.s_proc_q d.addr tp';
      p_sem_add = sem';
    }

    list1 : List Desc
    list1 = below a ds ++ with_queue d (rest d.queue) ∷ vs

    A1 : IsAsl without_head t list1 free
    unfolding without_head requeued list1
    A1 =
        requeued-IsAsl k t a ds free A pos d vs at is (rest d.queue) d.queue n' p' sem' tp' r out
          sem_out (λ e i. other_queue k t a ds free A pos d vs at is e) wait

    only1 : AslOnly d.queue k without_head
    unfolding without_head
    only1 = record { same = refl; outside = λ c m. ground (arith, out c m, sem_out c m) }

    -- The descriptor stays.
    stays :
        (shortened d.queue d vs ≡ with_queue d (rest d.queue) ∷ vs) × (emptied d.queue d.addr ≡ [])
        → ((c : Ptr) → c ≡ first (queue_of a ds) → c ≢ null → sem' c ≡ null)
        → Unblocked t a ds free k without_head
    unfolding without_head list1
    stays kept gone = record {
      list = below a ds ++ with_queue d (rest d.queue) ∷ vs;
      free = free;
      is_asl = A1;
      list_is = sym (list_at.0 ∙ ap (λ l. below a ds ++ l) kept.0);
      free_is = ap (λ l. l ++ free) (sym (list_at.1 ∙ kept.1));
      queues = λ b.
          queues_with (rest d.queue) b
          ∙ ap (λ q. if b == a then rest q else queue_of b ds) (sym queue_is);
      sem_null = gone;
      asl_only = subst (λ q. AslOnly q k without_head) (sym queue_is) only1;
    }

    at1 : from a list1 ≡ with_queue d (rest d.queue) ∷ vs
    unfolding list1
    at1 = from-replaced a (with_queue d (rest d.queue)) vs (ground arith) ds

    module _ (empty : rest d.queue ≡ []) where
      k2 : Kernel
      k2 = released without_head t a list1 free A1 pos (with_queue d (rest d.queue)) vs at1 is empty

      same_pred : pred_of a without_head.semd_h list1 ≡ pred_of a k.semd_h ds
      unfolding without_head list1
      same_pred = pred_of-replaced a (with_queue d (rest d.queue)) vs (ground arith) k.semd_h ds

      same_below : below a list1 ≡ below a ds
      unfolding list1
      same_below = below-replaced a (with_queue d (rest d.queue)) vs (ground arith) ds

      a_gone : has a (sems (below a ds ++ vs)) ≡ false
      a_gone = ground (
        arith,
        sems-append a (below a ds) vs,
        not-has-below a ds,
        Active-lt k t d.sem (k.s_next d.addr) a vs act.3,
      )

      queues_left :
          (b : Ptr)
          → queue_of b (below a list1 ++ vs)
            ≡ (if b == a then rest (queue_of a ds) else queue_of b ds)
      queues_left b =
          ap (λ l. queue_of b (l ++ vs)) same_below
          ∙ sym (
              queue_of-empty b (with_queue d (rest d.queue)) (below a ds) vs
                (ap (λ x. has x (sems (below a ds ++ vs))) is ∙ a_gone) empty)
          ∙ queues_with (rest d.queue) b
          ∙ ap (λ q. if b == a then rest q else queue_of b ds) (sym queue_is)

      released_run : release_semd (pred_of a k.semd_h ds) without_head ≡ ok tt k2
      unfolding k2
      released_run =
          subst (λ c. release_semd c without_head ≡ ok tt k2) same_pred
            (release_semd-released without_head t a list1 free A1 pos (with_queue d (rest d.queue))
              vs at1 is empty)

      -- The descriptor is freed.
      leaves :
          d.queue ≢ []
          → ((c : Ptr) → c ≡ first (queue_of a ds) → c ≢ null → sem' c ≡ null)
          → Unblocked t a ds free k k2
      unfolding k2 without_head list1 released
      leaves some gone = record {
        list = below a list1 ++ vs;
        free = d.addr ∷ free;
        is_asl =
            released-IsAsl without_head t a list1 free A1 pos (with_queue d (rest d.queue)) vs at1
              is empty;
        list_is =
            ap (λ l. l ++ vs) same_below
            ∙ sym
                (list_at.0 ∙ ap (λ l. below a ds ++ l) (shortened-last d.queue d vs some empty).0);
        free_is =
            ap (λ l. l ++ free) (sym (list_at.1 ∙ (shortened-last d.queue d vs some empty).1));
        queues = λ b. queues_left b;
        sem_null = gone;
        asl_only =
            subst (λ q. AslOnly q k k2) (sym queue_is)
              (record { same = refl; outside = λ c m. only1.outside c m });
      }

  sub_queue : (c : Ptr) → has c (rest d.queue) ≡ true → k.p_sem_add c ≡ a
  sub_queue c m = act.2.waiting c (has-rest c d.queue m) ∙ is

  -- The descriptor has a head.
  module _ (n' p' : Field) (o : Ptr × Ptr) (res : o.0 ≡ first d.queue)
      (ring : Ring n' p' o.1 (rest d.queue)) (out : Outside d.queue k n' p')
      (some : o.0 == null ≡ false) where
    sem1 : Field
    sem1 = upd k.p_sem_add o.0 null

    head_in : has o.0 d.queue ≡ true
    head_in = ground (arith, res, some, has-first d.queue, ap (λ c. has c d.queue) res)

    head_out : has o.0 (rest d.queue) ≡ false
    head_out = ap (λ c. has c (rest d.queue)) res ∙ first-out d.queue act.2.ring.distinct

    out1 : (c : Ptr) → has c d.queue ≡ false → sem1 c ≡ k.p_sem_add c
    unfolding sem1
    out1 c m = ground (arith, m, head_in, eq_of_has c o.0 d.queue)

    wait1 : (c : Ptr) → has c (rest d.queue) ≡ true → sem1 c ≡ a
    unfolding sem1
    wait1 c m = ground (arith, m, head_out, eq_of_has c o.0 (rest d.queue), sub_queue c)

    gone1 : (c : Ptr) → c ≡ first (queue_of a ds) → c ≢ null → sem1 c ≡ null
    unfolding sem1
    gone1 c e ne = ground (arith, e, res, ap first queue_is)

    has_pcb : d.queue ≢ []
    has_pcb e = ground (arith, res, some, ap first e)

    abbrev k1 : Kernel
    k1 = without_head n' p' sem1 o.1 ring out out1 wait1

    last_part :
        (q : List Ptr)
        → rest d.queue ≡ q
        → Returns Result ((release_semd (pred_of a k.semd_h ds) >> pure o.0) k1)
    unfolding release_semd without_head empty_proc_q
    last_part [] e =
        simp (released_run n' p' sem1 o.1 ring out out1 wait1 e)
          (res ∙ ap first (sym queue_is), leaves n' p' sem1 o.1 ring out out1 wait1 e has_pcb gone1)
    last_part (x ∷ xs) e = simp (kept) (
      res ∙ ap first (sym queue_is),
      stays n' p' sem1 o.1 ring out out1 wait1 (shortened-more d.queue d vs x xs e) gone1,
    )
      where
        not_null : (o.1 == null) ≡ false
        not_null =
            let r = subst (Ring n' p' o.1) e ring in
            ground (arith, r.tail, r.no_null, has-last x xs)

        kept : release_semd (pred_of a k.semd_h ds) k1 ≡ ok tt k1
        kept =
            simp
              (
                ne_null (pred_of a k.semd_h ds) (place k t a ds free A pos).not_null,
                act.0,
                ne_null d.addr act.2.not_null,
                ==-refl d.addr,
                not_null,
              )
              refl

    all :
        remove_proc_q (k.s_proc_q d.addr) k ≡ ok o (with_links k n' p')
        → Returns Result (remove_blocked a k)
    unfolding remove_blocked without_head sem1
    all runs = subst (Returns Result) (sym whole) (last_part (rest d.queue) refl)
      where
        whole : remove_blocked a k ≡ (release_semd (pred_of a k.semd_h ds) >> pure o.0) k1
        whole =
            simp
              (
                traverse_asl-pred k t a ds free A,
                ne_null (pred_of a k.semd_h ds) (place k t a ds free A pos).not_null,
                act.0,
                ne_null d.addr act.2.not_null,
                act.2.sem_add,
                is,
                ==-refl a,
                runs,
                some,
              )
              refl

  pub listed : Returns Result (remove_blocked a k)
  unfolding remove_blocked without_head
  listed = elim (remove_proc_q-run k (k.s_proc_q d.addr) d.queue act.2.ring) [
    | links_run o n' p' runs (res, ring) out ↦ elim (Bool-cases (o.0 == null)) [
      | inl none ↦
          simp
            (
              traverse_asl-pred k t a ds free A,
              ne_null (pred_of a k.semd_h ds) (place k t a ds free A pos).not_null,
              act.0,
              ne_null d.addr act.2.not_null,
              act.2.sem_add,
              is,
              ==-refl a,
              runs,
              none,
            )
            (
              ground (arith, none, res, ap first queue_is),
              stays n' p' k.p_sem_add o.1 ring out (λ c m. refl) sub_queue
                  (shortened-none d.queue d vs refl act.2.ring.no_null (ground (arith, none, res)))
                  (λ c e ne. ground (arith, none, res, ap first queue_is)),
            )
      | inr some ↦ all n' p' o res ring out some runs
    ]
  ]
