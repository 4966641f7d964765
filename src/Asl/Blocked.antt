-- ===== src/Asl/Blocked.antt =====
-- Which pcbs are blocked on the active semaphore list: each stands in the queue of its `p_semAdd`.
use operating_system_cs.Base.{
  ◌<◌, ◌≡◌, ◌≢◌, refl, sym, ap, ◌∙◌, List, [], ◌∷◌, true, false, arith, has, has-append, Bool-cases,
  inl, inr, ◌==◌, if◌then◌else◌,
}
use operating_system_cs.Ring.{Ptr, null}
use operating_system_cs.Kernel.{Kernel}
use operating_system_cs.Pcb.Queue.{first, rest}
use operating_system_cs.Asl.List.{Desc, blocked, queue_of, Active, IsAsl}
use operating_system_cs.Asl.Frame.{queue_of-blocked}
use operating_system_cs.Asl.Remove.Absent.{Unblocked, has-rest, has-first}

module _ (k : Kernel) (t : Ptr) where
  queue_sem :
      (lo h b c : Ptr) (ds : List Desc)
      → Active k t lo h ds
      → has c (queue_of b ds) ≡ true
      → k.p_sem_add c ≡ b
  queue_sem lo h b c [] act m = cc
  queue_sem lo h b c (d ∷ ds) act m = elim (Bool-cases (d.sem == b)) [
    | inl e ↦ ground (arith, m, e, act.2.waiting c)
    | inr e ↦ ground (arith, m, e, queue_sem d.sem (k.s_next d.addr) b c ds act.3)
  ]

  own_queue :
      (lo h c : Ptr) (ds : List Desc)
      → Active k t lo h ds
      → has c (blocked ds) ≡ true
      → (lo < k.p_sem_add c) × (has c (queue_of (k.p_sem_add c) ds) ≡ true)
  own_queue lo h c [] act m = cc
  own_queue lo h c (d ∷ ds) act m = elim (Bool-cases (has c d.queue)) [
    | inl e ↦ ground (arith, e, act.1, act.2.waiting c)
    | inr e ↦
        let o =
          own_queue d.sem (k.s_next d.addr) c ds act.3
            (ground (arith, m, e, has-append c d.queue (blocked ds))) in
        ground (arith, o.0, o.1, act.1)
  ]

  pub null_free : (lo h : Ptr) (ds : List Desc) → Active k t lo h ds → has null (blocked ds) ≡ false
  null_free lo h [] act = refl
  null_free lo h (d ∷ ds) act = ground (
    arith,
    has-append null d.queue (blocked ds),
    act.2.ring.no_null,
    null_free d.sem (k.s_next d.addr) ds act.3,
  )

-- After `removeBlocked` the pcbs that are still blocked were so before, and the one that it returned is
-- not among them.
pub Unblocked-blocked :
    (k k' : Kernel) (t a : Ptr) (ds : List Desc) (free : List Ptr)
    → IsAsl k t ds free
    → a ≢ null
    → (u : Unblocked t a ds free k k') → (c : Ptr) → has c (blocked u.list) ≡ true
    → (has c (blocked ds) ≡ true) × (c ≢ first (queue_of a ds))
Unblocked-blocked k k' t a ds free A ne u c m = (was, left)
  where
    own : has c (queue_of (k'.p_sem_add c) u.list) ≡ true
    own = (own_queue k' t 0 (k'.s_next k'.semd_h) c u.list u.is_asl.active m).1

    before :
        has c (if k'.p_sem_add c == a then rest (queue_of a ds) else queue_of (k'.p_sem_add c) ds)
        ≡ true
    before = ap (has c) (sym (u.queues (k'.p_sem_add c))) ∙ own

    was : has c (blocked ds) ≡ true
    was = elim (Bool-cases (k'.p_sem_add c == a)) [
      | inl e ↦ queue_of-blocked a c ds (has-rest c (queue_of a ds) (ground (arith, before, e)))
      | inr e ↦ queue_of-blocked (k'.p_sem_add c) c ds (ground (arith, before, e))
    ]

    not_null : c ≢ null
    not_null e = ground (
      arith,
      m,
      ap (λ x. has x (blocked u.list)) e,
      null_free k' t 0 (k'.s_next k'.semd_h) u.list u.is_asl.active,
    )

    left : c ≢ first (queue_of a ds)
    left e =
        let gone = u.sem_null c e not_null in
        let waits_null =
          queue_sem k t 0 (k.s_next k.semd_h) (k'.p_sem_add c) c ds A.active
            (ground (arith, before, gone, ne)) in
        let waits_a =
          queue_sem k t 0 (k.s_next k.semd_h) a c ds A.active (
            ap (λ x. has x (queue_of a ds)) e
            ∙ has-first (queue_of a ds) (λ f. not_null (e ∙ f))) in
        ne (sym waits_a ∙ waits_null ∙ gone)
