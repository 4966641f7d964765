-- ===== src/Exceptions/Wake.antt =====
-- The V operation (SYS4, `VERHOGEN` of phase2/exceptions.c).
use operating_system_cs.Base.{
  ◌<◌, ◌≡◌, ◌≢◌, refl, sym, ap, ◌∙◌, List, [], ◌∷◌, ◌++◌, true, false, has, upd, add32, le_zero,
  if◌then◌else◌, ◌==◌, ==-refl, arith,
}
use operating_system_cs.Ring.{Ptr, null, Ring, Ring-frame}
use operating_system_cs.Kernel.{Kernel}
use operating_system_cs.Kernel.Const.{a1}
use operating_system_cs.Kernel.Run.{Returns, ne_null, Returns-Ran, ran}
use operating_system_cs.Pcb.Queue.{IsProcQ, first, rest}
use operating_system_cs.Pcb.Queue.Explicit.{links_run, with_links, insert_proc_q-run, Outside}
use operating_system_cs.Asl.Defs.{sentinel, remove_blocked}
use operating_system_cs.Asl.List.{Desc, blocked, queue_of, IsAsl}
use operating_system_cs.Asl.Frame.{IsAsl-outer, queue_of-blocked}
use operating_system_cs.Asl.Blocked.{Unblocked-blocked}
use operating_system_cs.Asl.Remove.Absent.{Unblocked}
use operating_system_cs.Asl.Remove.{remove_blocked-Unblocked}
use operating_system_cs.Exceptions.Defs.{verhogen, wake}

-- What a V operation with waiting processes has done: the one that has waited longest, `x`, is ready.
pub record Woken (t a x : Ptr) (xs : List Ptr) (ds : List Desc) (k : Kernel) (r : Ptr) (k' : Kernel)
    : Type 0 where
  pub result : r ≡ x
  pub ready : IsProcQ k' k'.ready_q (xs ++ x ∷ [])
  pub sem_add : k'.p_sem_add x ≡ null
  pub list : List Desc
  pub free : List Ptr
  pub is_asl : IsAsl k' t list free
  pub queues :
      (b : Ptr) → queue_of b list ≡ (if b == a then rest (queue_of a ds) else queue_of b ds)
  pub value : k'.words a ≡ add32 (k.words a) 1
  pub current : k'.current_p ≡ k.current_p

module _ (k : Kernel) (t x : Ptr) (xs ws : List Ptr) (ds : List Desc) (free : List Ptr)
    (A : IsAsl k t ds free) (r : IsProcQ k k.ready_q xs)
    (apart : (c : Ptr) → has c xs ≡ true → has c (blocked ds) ≡ false) (ne : k.bios.s_reg a1 ≢ null)
    (at : queue_of (k.bios.s_reg a1) ds ≡ x ∷ ws) where
  abbrev a : Ptr
  a = k.bios.s_reg a1

  abbrev k0 : Kernel
  k0 = record k { words = upd k.words a (add32 (k.words a) 1) }

  asl0 : IsAsl k0 t ds free
  asl0 = IsAsl-outer k k0 t ds free refl (λ c m. (refl, refl)) A

  x_new : has x xs ≡ false
  x_new = ground (arith, apart x, queue_of-blocked a x ds, ap (has x) at, ==-refl x)

  -- Behind `removeBlocked` and `insertProcQ`.
  module _ (k1 : Kernel) (u : Unblocked t a ds free k0 k1) where
    ready1 : IsProcQ k1 k.ready_q xs
    ready1 = Ring-frame xs r λ c m.
        let o = u.asl_only.outside c (ground (arith, apart c m, queue_of-blocked a c ds)) in
        (o.0, o.1)

    others : (c : Ptr) → has c (blocked u.list) ≡ true → has c (x ∷ xs) ≡ false
    others c m =
        let o = Unblocked-blocked k0 k1 t a ds free asl0 ne u c m in
        ground (arith, o.0, o.1, apart c, ap (λ y. c ≡ y) (ap first at))

    module _ (tp : Ptr) (n q : Ptr → Ptr) (ring : Ring n q tp (xs ++ x ∷ []))
        (out : Outside (x ∷ xs) k1 n q) (xne : x ≢ null) where
      abbrev k2 : Kernel
      k2 = record (with_links k1 n q) { ready_q = tp }

      woken : Woken t a x xs ds k x k2
      woken = record {
        result = refl;
        ready = ring;
        sem_add = u.sem_null x (sym (ap first at)) xne;
        list = u.list;
        free = u.free;
        is_asl = IsAsl-outer k1 k2 t u.list u.free refl (λ c m. out c (others c m)) u.is_asl;
        queues = u.queues;
        value = ap (λ (z : Kernel). z.words a) u.asl_only.same ∙ simp (==-refl a) refl;
        current = ap (λ (z : Kernel). z.current_p) u.asl_only.same;
      }

-- A V operation on a semaphore on which processes wait, and which it takes to 0 or less, makes
-- the one that has waited longest the last of the ready processes, and adds 1 to the semaphore;
-- the other queues stay. The semaphore is neither 0, `NULL` nor the tail mark, and no ready pcb
-- is blocked.
pub verhogen-wakes :
    (k : Kernel) (t x : Ptr) (xs ws : List Ptr) (ds : List Desc) (free : List Ptr)
    → IsAsl k t ds free
    → IsProcQ k k.ready_q xs
    → ((c : Ptr) → has c xs ≡ true → has c (blocked ds) ≡ false)
    → 0 < k.bios.s_reg a1
    → k.bios.s_reg a1 ≢ null
    → k.bios.s_reg a1 ≢ sentinel k
    → queue_of (k.bios.s_reg a1) ds ≡ x ∷ ws
    → x ≢ null
    → le_zero (add32 (k.words (k.bios.s_reg a1)) 1) ≡ true
    → Returns (Woken t (k.bios.s_reg a1) x xs ds k) (verhogen k)
unfolding verhogen wake
verhogen-wakes k t x xs ws ds free A r apart pos ne ns at xne low =
    elim (Returns-Ran _ (remove_blocked (k.bios.s_reg a1) (k0 k t x xs ws ds free A r apart ne at))
      (remove_blocked-Unblocked (k0 k t x xs ws ds free A r apart ne at) t (k.bios.s_reg a1) ds free
        (asl0 k t x xs ws ds free A r apart ne at) pos ns)) [
          | ran p k1 runs (res, u) ↦
              elim (insert_proc_q-run k1 k.ready_q x xs
                (ready1 k t x xs ws ds free A r apart ne at k1 u)
                (x_new k t x xs ws ds free A r apart ne at) xne) [
                  | links_run tp n q runs2 (ring, is_p) out ↦
                      simp
                        (
                          ne_null (k.bios.s_reg a1) ne,
                          ==-refl (k.bios.s_reg a1),
                          low,
                          runs,
                          res ∙ ap first at,
                          ne_null x xne,
                          ap (λ (z : Kernel). z.ready_q) u.asl_only.same,
                          runs2,
                        )
                        (woken k t x xs ws ds free A r apart ne at k1 u tp n q ring out xne)
                ]
        ]
