-- ===== src/Asl/Remove/Absent.antt =====
-- What `removeBlocked` of phase1/asl.c leaves, and that it does nothing for a semaphore that is not on
-- the list.
use operating_system_cs.Base.{
  ◌<◌, ◌≡◌, ◌≢◌, refl, sym, ap, ◌∙◌, List, [], ◌∷◌, ◌++◌, true, false, arith, has, if◌then◌else◌,
  ◌==◌, ==-refl, Distinct,
}
use operating_system_cs.Ring.{Ptr, null}
use operating_system_cs.Kernel.{Kernel}
use operating_system_cs.Kernel.Run.{Returns, ne_null}
use operating_system_cs.Pcb.Queue.{first, rest}
use operating_system_cs.Asl.Defs.{sentinel, remove_blocked}
use operating_system_cs.Asl.List.{Desc, sems, queue_of, IsAsl}
use operating_system_cs.Asl.Traverse.{from, pred_of, lo_of, Place, Active-Place, traverse_asl-pred}
use operating_system_cs.Asl.Queues.{
  dequeued, vacated, dequeued-absent, queue_of-absent, Active-other, not-has-from,
}
use operating_system_cs.Asl.Requeue.{AslOnly}

-- The first pcb has left the queue of the semaphore `a`; the other queues are as before. `freed` were
-- the free descriptors.
pub record Unblocked (t a : Ptr) (ds : List Desc) (freed : List Ptr) (k k' : Kernel) : Type 0 where
  pub list : List Desc
  pub free : List Ptr
  pub is_asl : IsAsl k' t list free
  pub list_is : list ≡ dequeued a ds
  pub free_is : free ≡ vacated a ds ++ freed
  pub queues :
      (b : Ptr) → queue_of b list ≡ (if b == a then rest (queue_of a ds) else queue_of b ds)
  pub sem_null : (c : Ptr) → c ≡ first (queue_of a ds) → c ≢ null → k'.p_sem_add c ≡ null
  pub asl_only : AslOnly (queue_of a ds) k k'

-- The head of a list, `NULL` if it is empty, and the elements behind it.
pub has-rest : (c : Ptr) (xs : List Ptr) → has c (rest xs) ≡ true → has c xs ≡ true
has-rest c [] h = h
has-rest c (x ∷ xs) h = ground (arith, h)

pub has-first : (xs : List Ptr) → first xs ≢ null → has (first xs) xs ≡ true
has-first [] h = absurd (h refl)
has-first (x ∷ xs) h = ground (arith, ==-refl x)

pub first-out : (xs : List Ptr) → Distinct xs → has (first xs) (rest xs) ≡ false
first-out [] h = refl
first-out (x ∷ xs) h = h.0

module _ (k : Kernel) (t a : Ptr) (ds : List Desc) (free : List Ptr) (A : IsAsl k t ds free)
    (pos : 0 < a) where
  pub place : Place k t 0 a k.semd_h ds
  place = Active-Place k t 0 a k.semd_h ds A.head_not_null A.head_sem pos A.active

  -- No pcb is blocked on a semaphore that is not on the list.
  pub absent :
      a ≢ sentinel k
      → has a (sems ds) ≡ false
      → Returns
          (λ r k'. (r ≡ first (queue_of a ds)) × Unblocked t a ds free k k')
          (remove_blocked a k)
  unfolding remove_blocked
  absent ns h =
      let o =
        Active-other k t (lo_of a 0 ds) (k.s_next (pred_of a k.semd_h ds)) a (from a ds) place.rest
          A.tail_not_null A.tail_sem ns (not-has-from a ds h) in
      let none = queue_of-absent a ds h in
      simp
        (
          traverse_asl-pred k t a ds free A,
          ne_null (pred_of a k.semd_h ds) place.not_null,
          ne_null (k.s_next (pred_of a k.semd_h ds)) o.0,
          o.1,
        )
        (
          ap first (sym none),
          record {
            list = ds;
            free = free;
            is_asl = A;
            list_is = sym (dequeued-absent a ds h).0;
            free_is = ap (λ l. l ++ free) (sym (dequeued-absent a ds h).1);
            queues =
                λ b. ground (arith, none, ap rest none, ap (λ c. queue_of c ds) {x = b} {y = a});
            sem_null = λ c e ne. absurd (ne (e ∙ ap first none));
            asl_only = record { same = refl; outside = λ c m. (refl, refl, refl) };
          },
        )
