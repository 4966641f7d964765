-- ===== src/Asl/Insert/Blocked.antt =====
-- `insertBlocked` of phase1/asl.c as a whole.
use operating_system_cs.Base.{
  ◌<◌, ◌≡◌, ◌≢◌, ◌⊎◌, refl, sym, ap, ◌∙◌, List, [], ◌∷◌, ◌++◌, true, false, ◌||◌, arith, has,
  has-append, if◌then◌else◌, ◌==◌, ==-refl, Bool-cases, inl, inr,
}
use mathlib.Core.Path.{subst}
use operating_system_cs.Ring.{Ptr, null}
use operating_system_cs.Chain.{Chain}
use operating_system_cs.Kernel.{Kernel}
use operating_system_cs.Kernel.Run.{Returns, Returns-mono, ok, ne_null}
use operating_system_cs.Asl.Defs.{sentinel, insert_blocked, enqueue_blocked}
use operating_system_cs.Asl.List.{Desc, sems, blocked, queue_of, Active, IsAsl}
use operating_system_cs.Asl.Traverse.{
  below, from, pred_of, lo_of, Place, Active-Place, traverse_asl-pred, below-append-from,
}
use operating_system_cs.Asl.Focus.{from-replaced, pred_of-replaced}
use operating_system_cs.Asl.Queues.{
  not-has-below, queue_of-with_queue, queue_of-at, queue_of-empty, blocked-append, found,
  from-Found, Active-other, not-has-from,
}
use operating_system_cs.Asl.Requeue.{AslOnly}
use operating_system_cs.Asl.Insert.{join, enqueue_blocked-join}
use operating_system_cs.Asl.Insert.Link.{
  alloc_semd-first, alloc_semd-none, fresh, with_fresh, fresh_list, with_fresh-IsAsl, p_ne,
}

-- The pcb `p` has joined the queue of the semaphore `a`; the other queues are as before.
pub record Joined (t a p : Ptr) (ds : List Desc) (k k' : Kernel) : Type 0 where
  pub list : List Desc
  pub free : List Ptr
  pub is_asl : IsAsl k' t list free
  pub queues :
      (b : Ptr) → queue_of b list ≡ (if b == a then queue_of a ds ++ p ∷ [] else queue_of b ds)
  pub members : (c : Ptr) → has c (blocked list) ≡ ((c == p) || has c (blocked ds))
  pub asl_only : AslOnly (p ∷ queue_of a ds) k k'

module _ (k : Kernel) (t a p : Ptr) (ds : List Desc) (free : List Ptr) (A : IsAsl k t ds free)
    (pos : 0 < a) (ns : a ≢ sentinel k) (ne : p ≢ null) (new : has p (blocked ds) ≡ false) where
  place : Place k t 0 a k.semd_h ds
  place = Active-Place k t 0 a k.semd_h ds A.head_not_null A.head_sem pos A.active

  enqueue_Joined :
      (d : Desc) (vs : List Desc)
      → from a ds ≡ d ∷ vs
      → d.sem ≡ a
      → Returns
          (λ r k'. (r ≡ false) × Joined t a p ds k k')
          (enqueue_blocked (pred_of a k.semd_h ds) a p k)
  enqueue_Joined d vs at is =
      Returns-mono _ _ (enqueue_blocked (pred_of a k.semd_h ds) a p k)
        (enqueue_blocked-join k t a p ds free A pos d vs at is ne new)
        λ r k' h. (
          h.0,
          record {
            list = below a ds ++ join d p ∷ vs;
            free = free;
            is_asl = h.1;
            queues = λ b.
                queue_of-with_queue a b d (d.queue ++ p ∷ []) (below a ds) vs (not-has-below a ds)
                  is
                ∙ (simp (split, queue_is));
            members = λ c. ground (
              arith,
              blocked-append c (below a ds) (join d p ∷ vs),
              has-append c (d.queue ++ p ∷ []) (blocked vs),
              has-append c d.queue (p ∷ []),
              has-append c d.queue (blocked vs),
              blocked-append c (below a ds) (d ∷ vs),
              ap (λ l. has c (blocked l)) split,
            );
            asl_only = subst (λ q. AslOnly (p ∷ q) k k') (sym queue_is) h.2;
          },
        )
    where
      split : below a ds ++ d ∷ vs ≡ ds
      split = subst (λ l. below a ds ++ l ≡ ds) at (below-append-from a ds)

      queue_is : queue_of a ds ≡ d.queue
      queue_is =
          subst (λ l. queue_of a l ≡ d.queue) split
            (queue_of-at a d (below a ds) vs (not-has-below a ds) is)

  present :
      has a (sems ds) ≡ true
      → Returns (λ r k'. (r ≡ false) × Joined t a p ds k k') (insert_blocked a p k)
  unfolding insert_blocked
  present h = elim (from-Found k t 0 (k.s_next k.semd_h) a ds A.active h) [
    | found d vs at is ↦
        let act =
          subst (Active k t (lo_of a 0 ds) (k.s_next (pred_of a k.semd_h ds))) at place.rest in
        simp
          (
            traverse_asl-pred k t a ds free A,
            ne_null (pred_of a k.semd_h ds) place.not_null,
            act.0,
            ne_null d.addr act.2.not_null,
            act.2.sem_add,
            is,
            ==-refl a,
          )
          (enqueue_Joined d vs at is)
  ]

  other :
      has a (sems ds) ≡ false
      → (k.s_next (pred_of a k.semd_h ds) ≢ null)
        × ((k.s_sem_add (k.s_next (pred_of a k.semd_h ds)) == a) ≡ false)
  other h =
      Active-other k t (lo_of a 0 ds) (k.s_next (pred_of a k.semd_h ds)) a (from a ds) place.rest
        A.tail_not_null A.tail_sem ns (not-has-from a ds h)

  -- With no free descriptor `insertBlocked` returns TRUE for a semaphore that is not on the list,
  -- and changes nothing.
  pub insert_blocked-full : has a (sems ds) ≡ false → free ≡ [] → insert_blocked a p k ≡ ok true k
  unfolding insert_blocked
  insert_blocked-full h e = simp (
    traverse_asl-pred k t a ds free A,
    ne_null (pred_of a k.semd_h ds) place.not_null,
    ne_null (k.s_next (pred_of a k.semd_h ds)) (other h).0,
    (other h).1,
    alloc_semd-none k a (subst (Chain k.s_next k.semd_free_h) e A.free_chain),
  )

module _ (k : Kernel) (t a p f : Ptr) (ds : List Desc) (fs : List Ptr) (A : IsAsl k t ds (f ∷ fs))
    (pos : 0 < a) (ns : a ≢ sentinel k) (ne : p ≢ null) (new : has p (blocked ds) ≡ false)
    (absent : has a (sems ds) ≡ false) where
  k1 : Kernel
  k1 = with_fresh k t a f ds fs A pos ns absent

  ds1 : List Desc
  ds1 = fresh_list k t a f ds fs A pos ns absent

  A1 : IsAsl k1 t ds1 fs
  unfolding k1 ds1
  A1 = with_fresh-IsAsl k t a f ds fs A pos ns absent

  split1 : (c : Ptr) → has c (blocked ds1) ≡ has c (blocked ds)
  unfolding ds1 fresh_list
  split1 c = ground (
    arith,
    blocked-append c (below a ds) (fresh f a ∷ from a ds),
    blocked-append c (below a ds) (from a ds),
    ap (λ l. has c (blocked l)) (below-append-from a ds),
  )

  queues1 : (b : Ptr) → queue_of b ds1 ≡ queue_of b ds
  unfolding ds1 fresh_list
  queues1 b =
      queue_of-empty b (fresh f a) (below a ds) (from a ds)
        (ap (λ l. has a (sems l)) (below-append-from a ds) ∙ absent) refl
      ∙ ap (queue_of b) (below-append-from a ds)

  joined1 :
      Returns
        (λ r k'. (r ≡ false) × Joined t a p ds1 k1 k')
        (enqueue_blocked (pred_of a k.semd_h ds) a p k1)
  unfolding k1 ds1 with_fresh fresh_list
  joined1 =
      subst (λ c. Returns (λ r k'. (r ≡ false) × Joined t a p ds1 k1 k') (enqueue_blocked c a p k1))
        (pred_of-replaced a (fresh f a) (from a ds) (ground arith) k.semd_h ds)
        (enqueue_Joined k1 t a p ds1 fs A1 pos ns ne (split1 p ∙ new) (fresh f a) (from a ds)
          (from-replaced a (fresh f a) (from a ds) (ground arith) ds) refl)

  linked : insert_blocked a p k ≡ enqueue_blocked (pred_of a k.semd_h ds) a p k1
  unfolding insert_blocked k1 with_fresh
  linked =
      let pl = place k t a p ds (f ∷ fs) A pos ns ne new in
      let o = other k t a p ds (f ∷ fs) A pos ns ne new absent in
      simp (
        traverse_asl-pred k t a ds (f ∷ fs) A,
        ne_null (pred_of a k.semd_h ds) pl.not_null,
        ne_null (k.s_next (pred_of a k.semd_h ds)) o.0,
        o.1,
        alloc_semd-first k a f fs A.free_chain,
        ne_null f A.free_chain.links.1,
        p_apart,
      )
    where
      p_apart : (pred_of a k.semd_h ds == f) ≡ false
      p_apart = ground (arith, p_ne k t a f ds fs A pos ns absent)

  only1 : (k' : Kernel) → AslOnly (p ∷ queue_of a ds1) k1 k' → AslOnly (p ∷ queue_of a ds) k k'
  unfolding k1 with_fresh
  only1 k' o = record {
    same = o.same;
    outside = λ c m. o.outside c (ap (λ q. has c (p ∷ q)) (queues1 a) ∙ m);
  }

  pub absent_Joined : Returns (λ r k'. (r ≡ false) × Joined t a p ds k k') (insert_blocked a p k)
  absent_Joined = subst (Returns (λ r k'. (r ≡ false) × Joined t a p ds k k')) (sym linked) (
      Returns-mono _ _ (enqueue_blocked (pred_of a k.semd_h ds) a p k1) joined1
        λ r k' h. (h.0, whole k' h.1))
    where
      whole : (k' : Kernel) → Joined t a p ds1 k1 k' → Joined t a p ds k k'
      whole k' j = record {
        list = j.list;
        free = j.free;
        is_asl = j.is_asl;
        queues = λ b.
            ground (arith, j.queues b, queues1 a, queues1 b, ap (λ q. q ++ p ∷ []) (queues1 a));
        members = λ c. j.members c ∙ ap (λ x. (c == p) || x) (split1 c);
        asl_only = only1 k' j.asl_only;
      }

-- `insertBlocked` of a pcb that is blocked nowhere returns FALSE and appends the pcb to the queue
-- of the semaphore, if the semaphore is on the list or a descriptor is free. The semaphore is
-- neither 0 nor the tail mark.
pub insert_blocked-Joined :
    (k : Kernel) (t a p : Ptr) (ds : List Desc) (free : List Ptr)
    → IsAsl k t ds free
    → 0 < a
    → a ≢ sentinel k
    → p ≢ null
    → has p (blocked ds) ≡ false
    → (has a (sems ds) ≡ true) ⊎ (free ≢ [])
    → Returns (λ r k'. (r ≡ false) × Joined t a p ds k k') (insert_blocked a p k)
insert_blocked-Joined k t a p ds [] A pos ns ne new (inl h) =
    present k t a p ds [] A pos ns ne new h
insert_blocked-Joined k t a p ds [] A pos ns ne new (inr h) = absurd (h refl)
insert_blocked-Joined k t a p ds (f ∷ fs) A pos ns ne new room =
    elim (Bool-cases (has a (sems ds))) [
      | inl h ↦ present k t a p ds (f ∷ fs) A pos ns ne new h
      | inr h ↦ absent_Joined k t a p f ds fs A pos ns ne new h
    ]
