-- ===== src/Asl/Insert/Link.antt =====
-- The first half of `insertBlocked` for a semaphore that is not on the list: a free descriptor is
-- allocated and linked in, with an empty queue.
use operating_system_cs.Base.{
  ◌<◌, ◌≡◌, ◌≢◌, refl, ap, List, [], ◌∷◌, ◌++◌, false, arith, has, has-append, length-append, upd,
  eq_of_has, ne_of_has,
}
use mathlib.Core.Path.{subst}
use operating_system_cs.Ring.{Ptr, null, Ring-at}
use operating_system_cs.Chain
use operating_system_cs.Chain.{Chain}
use operating_system_cs.Kernel.{Kernel}
use operating_system_cs.Kernel.Run.{ok, ne_null}
use operating_system_cs.Asl.Defs.{sentinel, alloc_semd}
use operating_system_cs.Asl.List.{Desc, addrs, sems, IsDesc, Active, IsAsl}
use operating_system_cs.Asl.Traverse.{below, from, pred_of, lo_of, Place, Active-Place}
use operating_system_cs.Asl.Focus.{
  Active-not-has, In, In-addrs, In-from, Active-frame, Active-rebuild, addrs-append,
  addrs-below-from, length-below-from,
}

-- `allocSemd` takes the first free descriptor and initialises it.
pub alloc_semd-first :
    (k : Kernel) (a f : Ptr) (fs : List Ptr)
    → Chain k.s_next k.semd_free_h (f ∷ fs)
    → alloc_semd a k
      ≡ ok f (record k {
        semd_free_h = k.s_next f;
        s_next = upd k.s_next f null;
        s_sem_add = upd k.s_sem_add f a;
        s_proc_q = upd k.s_proc_q f null;
      })
unfolding alloc_semd
alloc_semd-first k a f fs c = simp (c.links.0, ne_null f c.links.1)

pub alloc_semd-none :
    (k : Kernel) (a : Ptr) → Chain k.s_next k.semd_free_h [] → alloc_semd a k ≡ ok null k
unfolding alloc_semd
alloc_semd-none k a c = simp c.links

abbrev pub fresh : Ptr → Ptr → Desc
fresh f a = record { addr = f; sem = a; queue = [] }

-- The list from the semaphore `a` on, where `a` itself is not on the list.
from-head :
    (a : Ptr) (ds : List Desc) (d : Desc) (vs : List Desc)
    → from a ds ≡ d ∷ vs
    → has a (sems ds) ≡ false
    → a < d.sem
unfolding from
from-head a [] d vs e h = cc
from-head a (x ∷ xs) d vs e h = ground (arith, from-head a xs d vs)

Active-from :
    (k : Kernel) (t lo h a : Ptr) (fs : List Desc)
    → Active k t lo h fs
    → ((d : Desc) (vs : List Desc) → fs ≡ d ∷ vs → a < d.sem)
    → Active k t a h fs
Active-from k t lo h a [] act above = act
Active-from k t lo h a (d ∷ vs) act above = (act.0, above d vs refl, act.2, act.3)

module _ (k : Kernel) (t a f : Ptr) (ds : List Desc) (fs : List Ptr) (A : IsAsl k t ds (f ∷ fs))
    (pos : 0 < a) (ns : a ≢ sentinel k) (absent : has a (sems ds) ≡ false) where
  place : Place k t 0 a k.semd_h ds
  place = Active-Place k t 0 a k.semd_h ds A.head_not_null A.head_sem pos A.active

  p : Ptr
  p = pred_of a k.semd_h ds

  unfoldable pub with_fresh : Kernel
  unfolding p
  with_fresh = record k {
    semd_free_h = k.s_next f;
    s_next = upd (upd (upd k.s_next f null) f (k.s_next p)) p f;
    s_sem_add = upd k.s_sem_add f a;
    s_proc_q = upd k.s_proc_q f null;
  }

  unfoldable pub fresh_list : List Desc
  fresh_list = below a ds ++ fresh f a ∷ from a ds

  f_apart : has f (k.semd_h ∷ t ∷ addrs ds) ≡ false
  f_apart = A.apart f (ground arith)

  pub p_ne : pred_of a k.semd_h ds ≢ f
  unfolding p
  p_ne = ground (arith, f_apart, place.known, eq_of_has p f (k.semd_h ∷ addrs ds))

  keep : (e : Desc) → In e ds → IsDesc k e → IsDesc with_fresh e
  unfolding with_fresh
  keep e i h = record {
    not_null = h.not_null;
    sem_add = ground (arith, h.sem_add, f_apart, In-addrs e ds i, ne_of_has f e.addr (addrs ds));
    not_sentinel = h.not_sentinel;
    ring = Ring-at h.ring (ground (arith, f_apart, In-addrs e ds i, ne_of_has f e.addr (addrs ds)));
    waiting = h.waiting;
  }

  f_ne : f ≢ null
  f_ne = A.free_chain.links.1

  made : IsDesc with_fresh (fresh f a)
  unfolding with_fresh
  made = record {
    not_null = f_ne;
    sem_add = ground arith;
    not_sentinel = ns;
    ring = record { tail = ground arith; links = tt; distinct = tt; no_null = refl };
    waiting = λ c m. cc;
  }

  above : Active k t a (k.s_next p) (from a ds)
  unfolding p
  above =
      Active-from k t (lo_of a 0 ds) (k.s_next p) a (from a ds) place.rest
        (λ d vs e. from-head a ds d vs e absent)

  p_out : has p (addrs (from a ds)) ≡ false
  unfolding p
  p_out =
      Active-not-has k t a (k.s_next p) p (from a ds) above
        (omega (arith, place.sem_add, place.lo-lt))

  f_out : has f (addrs (from a ds)) ≡ false
  f_out = ground (
    arith,
    f_apart,
    ap (has f) (addrs-below-from a ds),
    has-append f (addrs (below a ds)) (addrs (from a ds)),
  )

  f_below : has f (addrs (below a ds)) ≡ false
  f_below = ground (
    arith,
    f_apart,
    ap (has f) (addrs-below-from a ds),
    has-append f (addrs (below a ds)) (addrs (from a ds)),
  )

  linked_list : Active with_fresh t 0 (with_fresh.s_next k.semd_h) fresh_list
  unfolding with_fresh fresh_list p
  linked_list =
      Active-rebuild k with_fresh t 0 a k.semd_h ds (fresh f a ∷ from a ds) A.head_not_null
        A.head_sem pos A.active (λ e i lt. keep e i)
        (λ e m apart.
          ground (arith, f_apart, f_below, eq_of_has e f (k.semd_h ∷ addrs (below a ds))))
        (
          ground arith,
          place.lo-lt,
          made,
          Active-frame k with_fresh t a (with_fresh.s_next f) (from a ds)
              (subst (λ h. Active k t a h (from a ds)) (ground (arith, p_ne)) above)
              (λ e i lt. keep e (In-from a e ds i))
              (λ e m. ground (
                arith,
                p_out,
                f_out,
                eq_of_has e f (addrs (from a ds)),
                eq_of_has e p (addrs (from a ds)),
              )),
        )

  addrs_fresh : (c : Ptr) → has c (addrs fresh_list) ≡ has c (f ∷ addrs ds)
  unfolding fresh_list
  addrs_fresh c = ground (
    arith,
    ap (has c) (addrs-append (below a ds) (fresh f a ∷ from a ds)),
    ap (has c) (addrs-below-from a ds),
    has-append c (addrs (below a ds)) (f ∷ addrs (from a ds)),
    has-append c (addrs (below a ds)) (addrs (from a ds)),
  )

  free_rest : Chain with_fresh.s_next with_fresh.semd_free_h fs
  unfolding with_fresh p
  free_rest = record {
    links = Chain.Links-frame (k.s_next f) fs A.free_chain.links.2 λ c m. ground (
      arith,
      A.free_chain.distinct.0,
      A.apart c,
      place.known,
      eq_of_has c f fs,
      eq_of_has c p (k.semd_h ∷ addrs ds),
    );
    distinct = A.free_chain.distinct.1;
  }

  -- With the new descriptor linked in, the list is well formed.
  pub with_fresh-IsAsl : IsAsl with_fresh t fresh_list fs
  unfolding with_fresh fresh_list
  with_fresh-IsAsl = record {
    head_not_null = A.head_not_null;
    head_sem = ground (arith, A.head_sem, f_apart);
    tail_not_null = A.tail_not_null;
    tail_sem = ground (arith, A.tail_sem, f_apart);
    sentinel_pos = A.sentinel_pos;
    active = linked_list;
    free_chain = free_rest;
    apart =
        λ c m. ground (arith, A.apart c, addrs_fresh c, A.free_chain.distinct.0, eq_of_has c f fs);
    count = omega (
      arith,
      A.count,
      length-append (below a ds) (fresh f a ∷ from a ds),
      length-below-from a ds,
    );
  }
