-- ===== src/Asl/Remove/Release.antt =====
-- The end of `removeBlocked` of phase1/asl.c: a descriptor with an empty queue leaves the list.
use operating_system_cs.Base.{
  ◌+◌, ◌<◌, ◌≡◌, ◌≢◌, sym, ap, List, [], ◌∷◌, ◌++◌, true, false, arith, has, has-append, length,
  length-append, upd, eq_of_has,
}
use mathlib.Core.Path.{subst}
use operating_system_cs.Ring.{Ptr, null, IsTail, Ring-at}
use operating_system_cs.Chain.{Chain, Chain-cons}
use operating_system_cs.Chain
use operating_system_cs.Kernel.{Kernel}
use operating_system_cs.Kernel.Run.{ok, ne_null}
use operating_system_cs.Asl.Defs.{release_semd, free_semd}
use operating_system_cs.Asl.List.{Desc, addrs, IsDesc, Active, IsAsl}
use operating_system_cs.Asl.Traverse.{below, from, pred_of, lo_of}
use operating_system_cs.Asl.Focus.{
  Active-not-has, Active-weaken, Active-frame, Active-rebuild, below-not-has, addrs-append,
  addrs-below-from, length-below-from,
}
use operating_system_cs.Asl.Requeue.{place, rest_at, other_addr}

module _ (k : Kernel) (t a : Ptr) (ds : List Desc) (free : List Ptr) (A : IsAsl k t ds free)
    (pos : 0 < a) (d : Desc) (vs : List Desc) (at : from a ds ≡ d ∷ vs) (is : d.sem ≡ a)
    (empty : d.queue ≡ []) where
  act : Active k t (lo_of a 0 ds) (k.s_next (pred_of a k.semd_h ds)) (d ∷ vs)
  act = rest_at k t a ds free A pos d vs at is

  p : Ptr
  p = pred_of a k.semd_h ds

  unfoldable pub released : Kernel
  unfolding p
  released = record k {
    s_proc_q = upd k.s_proc_q d.addr null;
    s_next = upd (upd k.s_next p (k.s_next d.addr)) d.addr k.semd_free_h;
    semd_free_h = d.addr;
  }

  queue_null : k.s_proc_q d.addr ≡ null
  queue_null = subst (λ q. IsTail (k.s_proc_q d.addr) q) empty act.2.ring.tail

  -- The commands of the end of `removeBlocked`.
  pub release_semd-released : release_semd (pred_of a k.semd_h ds) k ≡ ok tt released
  unfolding release_semd free_semd released p
  release_semd-released = simp (
    ne_null (pred_of a k.semd_h ds) (place k t a ds free A pos d vs at is).not_null,
    act.0,
    ne_null d.addr act.2.not_null,
    queue_null,
  )

  p_sem : k.s_sem_add p ≡ lo_of a 0 ds
  unfolding p
  p_sem = (place k t a ds free A pos d vs at is).sem_add

  p_ne : p ≢ d.addr
  p_ne = ground (arith, p_sem, act.1, act.2.sem_add, ap k.s_sem_add {x = p} {y = d.addr})

  keep : (e : Desc) → e.sem ≢ a → IsDesc k e → IsDesc released e
  unfolding released
  keep e apart h = record {
    not_null = h.not_null;
    sem_add = h.sem_add;
    not_sentinel = h.not_sentinel;
    ring = Ring-at h.ring (ground (arith, other_addr k t a ds free A pos d vs at is e apart h));
    waiting = h.waiting;
  }

  d_out : has d.addr (addrs vs) ≡ false
  d_out = Active-not-has k t d.sem (k.s_next d.addr) d.addr vs act.3 (omega (arith, act.2.sem_add))

  p_out : has p (addrs vs) ≡ false
  p_out = Active-not-has k t d.sem (k.s_next d.addr) p vs act.3 (omega (arith, p_sem, act.1))

  -- Every address but that of `d` is found before or behind it.
  addrs_split : (c : Ptr) → has c (addrs ds) ≡ has c (addrs (below a ds) ++ d.addr ∷ addrs vs)
  addrs_split c =
      ap (has c)
        (sym (subst (λ l. addrs (below a ds) ++ addrs l ≡ addrs ds) at (addrs-below-from a ds)))

  head_ne : k.semd_h ≢ d.addr
  head_ne =
      ground (arith, A.head_sem, act.1, act.2.sem_add, ap k.s_sem_add {x = k.semd_h} {y = d.addr})

  tail_ne : t ≢ d.addr
  tail_ne =
      ground
        (arith, A.tail_sem, act.2.not_sentinel, act.2.sem_add, ap k.s_sem_add {x = t} {y = d.addr})

  d_free : has d.addr free ≡ false
  d_free = ground (
    arith,
    A.apart d.addr,
    addrs_split d.addr,
    has-append d.addr (addrs (below a ds)) (d.addr ∷ addrs vs),
  )

  p_free : has p free ≡ false
  unfolding p
  p_free = ground (arith, A.apart p, (place k t a ds free A pos d vs at is).known)

  d_below : has d.addr (k.semd_h ∷ addrs (below a ds)) ≡ false
  d_below = ground (
    arith,
    head_ne,
    below-not-has k t 0 (k.s_next k.semd_h) a d.addr ds A.active (omega (arith, act.2.sem_add, is)),
  )

  after : List Desc
  after = below a ds ++ vs

  addrs-after : (c : Ptr) → has c (addrs after) ≡ true → has c (addrs ds) ≡ true
  unfolding after
  addrs-after c m = ground (
    arith,
    addrs_split c,
    ap (has c) (addrs-append (below a ds) vs),
    has-append c (addrs (below a ds)) (d.addr ∷ addrs vs),
    has-append c (addrs (below a ds)) (addrs vs),
  )

  d_after : has d.addr (addrs after) ≡ false
  unfolding after
  d_after = ground (
    arith,
    ap (has d.addr) (addrs-append (below a ds) vs),
    d_out,
    d_below,
    has-append d.addr (addrs (below a ds)) (addrs vs),
  )

  pub released-IsAsl : IsAsl released t (below a ds ++ vs) (d.addr ∷ free)
  unfolding released p after
  released-IsAsl = record {
    head_not_null = A.head_not_null;
    head_sem = A.head_sem;
    tail_not_null = A.tail_not_null;
    tail_sem = A.tail_sem;
    sentinel_pos = A.sentinel_pos;
    active =
        Active-rebuild k released t 0 a k.semd_h ds vs A.head_not_null A.head_sem pos A.active
          (λ e i lt. keep e (ground arith))
          (λ e m apart. ground (arith, d_below, eq_of_has e d.addr (k.semd_h ∷ addrs (below a ds))))
          (subst (λ h. Active released t (lo_of a 0 ds) h vs) (ground (arith, p_ne))
            (Active-weaken released t d.sem (lo_of a 0 ds) (k.s_next d.addr) vs
              (Active-frame k released t d.sem (k.s_next d.addr) vs act.3
                (λ e i lt. keep e (ground arith))
                (λ e m.
                  ground
                    (arith, p_out, d_out, eq_of_has e d.addr (addrs vs), eq_of_has e p (addrs vs))))
              (omega (arith, act.1))));
    free_chain =
        Chain-cons d.addr free
          (record {
            links =
                Chain.Links-frame k.semd_free_h free A.free_chain.links
                  (λ c m. ground (arith, p_free, eq_of_has c p free));
            distinct = A.free_chain.distinct;
          })
          d_free act.2.not_null;
    apart = λ c m. ground (
      arith,
      A.apart c,
      head_ne,
      tail_ne,
      addrs-after c,
      d_after,
      eq_of_has c d.addr (addrs after),
    );
    count = omega (
      arith,
      A.count,
      length-append (below a ds) vs,
      subst (λ l. length (below a ds) + length l ≡ length ds) at (length-below-from a ds),
    );
  }
