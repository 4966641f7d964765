-- ===== src/Asl/Requeue.antt =====
-- A change of one queue on the active semaphore list: the queue of the descriptor at the semaphore
-- `a` becomes `q`, and the links and `p_semAdd` of pcbs outside `s` stay.
use operating_system_cs.Base.{
  ◌+◌, ◌<◌, ◌≡◌, ◌≢◌, refl, sym, ap, ◌∙◌, List, ◌∷◌, ◌++◌, true, false, arith, has, length,
  length-append, upd, inr,
}
use mathlib.Core.Path.{subst}
use operating_system_cs.Ring.{Ptr, Field, Ring, Ring-frame, Ring-at}
use operating_system_cs.Kernel.{Kernel}
use operating_system_cs.Pcb.Queue.Explicit.{Outside}
use operating_system_cs.Asl.List.{Desc, addrs, IsDesc, Active, IsAsl}
use operating_system_cs.Asl.Queues.{with_queue}
use operating_system_cs.Asl.Traverse.{below, from, pred_of, lo_of, Place, Active-Place}
use operating_system_cs.Asl.Focus.{
  In, In-from, Active-frame, Active-rebuild, addrs-append, addrs-below-from, length-below-from,
}

-- What the operations of the list may change: the descriptors, and of the pcbs in `s` the queue
-- links and `p_semAdd`.
pub record AslOnly (s : List Ptr) (k k' : Kernel) : Type 0 where
  pub same : k' ≡ record k {
    p_next = k'.p_next;
    p_prev = k'.p_prev;
    p_sem_add = k'.p_sem_add;
    s_next = k'.s_next;
    s_sem_add = k'.s_sem_add;
    s_proc_q = k'.s_proc_q;
    semd_free_h = k'.semd_free_h;
  }
  pub outside :
      (c : Ptr)
      → has c s ≡ false
      → (k'.p_next c ≡ k.p_next c) × (k'.p_prev c ≡ k.p_prev c) × (k'.p_sem_add c ≡ k.p_sem_add c)

module _ (k : Kernel) (t a : Ptr) (ds : List Desc) (free : List Ptr) (A : IsAsl k t ds free)
    (pos : 0 < a) (d : Desc) (vs : List Desc) (at : from a ds ≡ d ∷ vs) (is : d.sem ≡ a) where
  pub place : Place k t 0 a k.semd_h ds
  place = Active-Place k t 0 a k.semd_h ds A.head_not_null A.head_sem pos A.active

  pub rest_at : Active k t (lo_of a 0 ds) (k.s_next (pred_of a k.semd_h ds)) (d ∷ vs)
  rest_at = subst (Active k t (lo_of a 0 ds) (k.s_next (pred_of a k.semd_h ds))) at place.rest

  pub In-rest : (e : Desc) → In e (d ∷ vs) → In e ds
  In-rest e i = In-from a e ds (subst (In e) (sym at) i)

  -- Another descriptor stands at another address, and no pcb of its queue is in that of `d`.
  pub other_addr : (e : Desc) → e.sem ≢ a → IsDesc k e → e.addr ≢ d.addr
  other_addr e apart h =
      ground (arith, ap k.s_sem_add {x = e.addr} {y = d.addr}, h.sem_add, rest_at.2.sem_add)

  pub other_queue :
      (e : Desc) → e.sem ≢ a → IsDesc k e → (c : Ptr) → has c e.queue ≡ true → has c d.queue ≡ false
  other_queue e apart h c m = ground (arith, h.waiting c m, rest_at.2.waiting c)

  module _ (q s : List Ptr) (n' p' sem' : Field) (tp' : Ptr) (r : Ring n' p' tp' q)
      (out : Outside s k n' p') (sem_out : (c : Ptr) → has c s ≡ false → sem' c ≡ k.p_sem_add c)
      (spare : (e : Desc)
        → In e ds
        → e.sem ≢ a
        → IsDesc k e
        → (c : Ptr) → has c e.queue ≡ true
        → has c s ≡ false)
      (wait : (c : Ptr) → has c q ≡ true → sem' c ≡ a) where
    unfoldable pub requeued : Kernel
    requeued = record k {
      p_next = n';
      p_prev = p';
      s_proc_q = upd k.s_proc_q d.addr tp';
      p_sem_add = sem';
    }

    keep : (e : Desc) → In e ds → e.sem ≢ a → IsDesc k e → IsDesc requeued e
    unfolding requeued
    keep e i apart h = record {
      not_null = h.not_null;
      sem_add = h.sem_add;
      not_sentinel = h.not_sentinel;
      ring =
          Ring-at (Ring-frame e.queue h.ring λ c m. out c (spare e i apart h c m))
            (ground (arith, other_addr e apart h));
      waiting = λ c m. sem_out c (spare e i apart h c m) ∙ h.waiting c m;
    }

    changed : IsDesc requeued (with_queue d q)
    unfolding requeued
    changed = record {
      not_null = rest_at.2.not_null;
      sem_add = rest_at.2.sem_add;
      not_sentinel = rest_at.2.not_sentinel;
      ring = Ring-at r (ground arith);
      waiting = λ c m. wait c m ∙ sym is;
    }

    pub after : List Desc
    after = below a ds ++ with_queue d q ∷ vs

    addrs-after : addrs after ≡ addrs ds
    unfolding after
    addrs-after =
        addrs-append (below a ds) (with_queue d q ∷ vs)
        ∙ subst (λ l. addrs (below a ds) ++ addrs l ≡ addrs ds) at (addrs-below-from a ds)

    length-after : length after ≡ length ds
    unfolding after
    length-after =
        length-append (below a ds) (with_queue d q ∷ vs)
        ∙ subst (λ l. length (below a ds) + length l ≡ length ds) at (length-below-from a ds)

    -- The list is well formed after the change.
    pub requeued-IsAsl : IsAsl requeued t (below a ds ++ with_queue d q ∷ vs) free
    unfolding requeued after
    requeued-IsAsl = record {
      head_not_null = A.head_not_null;
      head_sem = A.head_sem;
      tail_not_null = A.tail_not_null;
      tail_sem = A.tail_sem;
      sentinel_pos = A.sentinel_pos;
      active =
          Active-rebuild k requeued t 0 a k.semd_h ds (with_queue d q ∷ vs) A.head_not_null
            A.head_sem pos A.active (λ e i lt. keep e i (ground arith)) (λ e m apart. refl)
            (
              rest_at.0,
              rest_at.1,
              changed,
              Active-frame k requeued t d.sem (k.s_next d.addr) vs rest_at.3
                  (λ e i lt. keep e (In-rest e (inr i)) (ground arith)) (λ e m. refl),
            );
      free_chain = A.free_chain;
      apart = λ c m. ground (arith, A.apart c m, ap (has c) addrs-after);
      count = omega (arith, A.count, length-after);
    }
