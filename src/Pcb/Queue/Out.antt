-- ===== src/Pcb/Queue/Out.antt =====
-- `outProcQ` of phase1/pcb.c erases one pcb from a queue; its search ends within the fuel.
use operating_system_cs.Base.{
  upd, ne_of_has, ℕ, zero, suc, ◌+◌, ◌≤◌, ◌<◌, ◌≡◌, ◌≢◌, refl, ap, ◌∙◌, List, [], ◌∷◌, true, false,
  arith, has, length, last, front, erase, ==-refl, ◌==◌, Bool-cases, inl, inr,
}
use operating_system_cs.Ring.{Ptr, null, Links}
use operating_system_cs.Ring.Search.{
  Ring-Walk, elem_ne, next_ne, prev_ne, next-in, prev-in, head_ne_self, tail_prev_ne,
}
use operating_system_cs.Ring.Erase.{erase_inner, erase_tail}
use operating_system_cs.Kernel.{Kernel}
use operating_system_cs.Kernel.Const.{maxproc}
use operating_system_cs.Kernel.Run.{Returns, ok, ne_null}
use operating_system_cs.Pcb.Defs.{out_proc_q, out_proc_q_loop, unlink_proc_q}
use operating_system_cs.Pcb.Queue.{IsProcQ, LinksOnly, tail_ne}

-- The search from `c` over `zs`, whose last element precedes the tail.
out_proc_q_loop-finds :
    (fuel : ℕ) (k : Kernel) (tp p c : Ptr) (zs : List Ptr)
    → Links k.p_next k.p_prev c zs
    → k.p_next (last c zs) ≡ tp
    → has tp zs ≡ false
    → c ≢ null
    → has null zs ≡ false
    → length zs < fuel
    → (v : Ptr) × (out_proc_q_loop fuel tp p c k ≡ ok v k) × ((v == p) ≡ has p (c ∷ zs))
unfolding out_proc_q_loop
out_proc_q_loop-finds zero k tp p c zs l end away ne nn h = absurd (omega arith)
out_proc_q_loop-finds (suc fuel) k tp p c [] l end away ne nn h = elim (Bool-cases (c == p)) [
  | inl e ↦ (c, simp e, ground arith)
  | inr e ↦ (c, simp (e, ne_null c ne, end, ==-refl tp), ground arith)
]
out_proc_q_loop-finds (suc fuel) k tp p c (z ∷ zs) l end away ne nn h =
    let go =
      out_proc_q_loop-finds fuel k tp p z zs l.2 end (ground arith) (ground arith) (ground arith)
        (omega arith) in
    elim (Bool-cases (c == p)) [
      | inl e ↦ (c, simp e, ground arith)
      | inr e ↦ (go.0, simp (e, ne_null c ne, l.0, not_tp) go.1, ground (arith, go.2))
    ]
  where
    not_tp : (z == tp) ≡ false
    not_tp = ground arith

module _ (k : Kernel) (tp q x : Ptr) (xs : List Ptr) (r : IsProcQ k tp (x ∷ xs))
    (fits : length (x ∷ xs) ≤ maxproc) where
  search :
      (v : Ptr) × (out_proc_q_loop (maxproc + 1) tp q tp k ≡ ok v k) × ((v == q) ≡ has q (x ∷ xs))
  search =
      let w = Ring-Walk x xs q r in
      let (v, runs, test) =
        out_proc_q_loop-finds (maxproc + 1) k tp q tp (front x xs) w.links w.back w.away
          (tail_ne x xs r) w.no_null (omega (arith, w.short)) in
      (v, runs, test ∙ w.visits)

-- `outProcQ` of a pcb that is not in the queue, of at most MAXPROC pcbs, returns `NULL` and
-- changes nothing.
pub out_proc_q-absent :
    (k : Kernel) (tp q : Ptr) (xs : List Ptr)
    → IsProcQ k tp xs
    → length xs ≤ maxproc
    → has q xs ≡ false
    → out_proc_q tp q k ≡ ok (null, tp) k
unfolding out_proc_q
out_proc_q-absent k tp q [] r fits h = simp r.tail
out_proc_q-absent k tp q (x ∷ xs) r fits h =
    let s = search k tp q x xs r fits in simp (ne_null tp (tail_ne x xs r), s.1, s.2 ∙ h)

-- What `outProcQ` of an element returns and leaves.
pub record Erased (q : Ptr) (xs : List Ptr) (k : Kernel) (o : Ptr × Ptr) (k' : Kernel)
    : Type 0 where
  pub result : o.0 ≡ q
  pub queue : IsProcQ k' o.1 (erase q xs)
  pub next_null : k'.p_next q ≡ null
  pub prev_null : k'.p_prev q ≡ null
  pub links_only : LinksOnly xs k k'

-- The three pcbs that the unlinking writes belong to the queue.
module _ (k : Kernel) (tp q x : Ptr) (xs : List Ptr) (r : IsProcQ k tp (x ∷ xs))
    (h : has q (x ∷ xs) ≡ true) where
  unlink_outside :
      (c : Ptr)
      → has c (x ∷ xs) ≡ false
      → (upd (upd k.p_next (k.p_prev q) (k.p_next q)) q null c ≡ k.p_next c)
        × (upd (upd k.p_prev (k.p_next q) (k.p_prev q)) q null c ≡ k.p_prev c)
  unlink_outside c m = ground (
    arith,
    ne_of_has c q (x ∷ xs) m h,
    ne_of_has c (k.p_next q) (x ∷ xs) m (next-in q x xs r h),
    ne_of_has c (k.p_prev q) (x ∷ xs) m (prev-in q x xs r h),
  )

  unlink_inner : q ≢ tp → Returns (Erased q (x ∷ xs) k) (unlink_proc_q tp q k)
  unfolding unlink_proc_q
  unlink_inner ne =
      simp
        (
          ne_null q (elem_ne q x xs r h),
          ne_null (k.p_next q) (next_ne q x xs r h),
          ne_null (k.p_prev q) (prev_ne q x xs r h),
          not_tail,
        )
        (record {
          result = refl;
          queue = erase_inner x xs _ _ r h ne (λ c m. ground arith) (λ c m. ground arith);
          next_null = ground arith;
          prev_null = ground arith;
          links_only = record { same = refl; outside = unlink_outside };
        })
    where
      not_tail : (tp == q) ≡ false
      not_tail = ground arith

-- The last element of a queue: the queue is left empty.
unlink_only :
    (k : Kernel) (tp q x : Ptr)
    → IsProcQ k tp (x ∷ [])
    → q ≡ tp
    → Returns (Erased q (x ∷ []) k) (unlink_proc_q tp q k)
unfolding unlink_proc_q
unlink_only k tp q x r is =
    simp (is, r.tail, ne_null x x_ne, next_self, prev_self, ==-refl x)
      (record {
        result = refl;
        queue = record {
          tail = ground arith;
          links = ground arith;
          distinct = ground arith;
          no_null = ground arith;
        };
        next_null = ground arith;
        prev_null = ground arith;
        links_only = record { same = refl; outside = λ c m. ground arith };
      })
  where
    x_ne : x ≢ null
    x_ne = ground (arith, r.no_null)

    next_self : k.p_next x ≡ x
    next_self = ground (arith, r.links.0, ap k.p_next r.tail)

    prev_self : k.p_prev x ≡ x
    prev_self = ground (arith, r.links.1, ap k.p_prev r.tail)

-- The tail of a longer queue: its predecessor becomes the tail.
unlink_tail :
    (k : Kernel) (tp q x y : Ptr) (ys : List Ptr)
    → IsProcQ k tp (x ∷ y ∷ ys)
    → has q (x ∷ y ∷ ys) ≡ true
    → q ≡ tp
    → Returns (Erased q (x ∷ y ∷ ys) k) (unlink_proc_q tp q k)
unfolding unlink_proc_q
unlink_tail k tp q x y ys r h is =
    simp
      (
        ne_null q (elem_ne q x (y ∷ ys) r h),
        ne_null (k.p_next q) (next_ne q x (y ∷ ys) r h),
        ne_null (k.p_prev q) (prev_ne q x (y ∷ ys) r h),
        at_tail,
        next_apart,
        prev_apart,
      )
      (record {
        result = refl;
        queue = erase_tail q x y ys _ _ r is (λ c m. ground arith) (λ c m. ground arith);
        next_null = ground arith;
        prev_null = ground arith;
        links_only = record { same = refl; outside = unlink_outside k tp q x (y ∷ ys) r h };
      })
  where
    at_tail : (tp == q) ≡ true
    at_tail = ground arith

    next_apart : (q == k.p_next q) ≡ false
    next_apart = ground (arith, ap k.p_next is, r.links.0, head_ne_self q x y ys r is)

    prev_apart : (k.p_prev q == q) ≡ false
    prev_apart = ground (arith, tail_prev_ne q x y ys r is)

unlink-erase :
    (k : Kernel) (tp q : Ptr) (xs : List Ptr)
    → IsProcQ k tp xs
    → has q xs ≡ true
    → Returns (Erased q xs k) (unlink_proc_q tp q k)
unlink-erase k tp q [] r h = cc
unlink-erase k tp q (x ∷ []) r h = elim (Bool-cases (q == tp)) [
  | inr e ↦ unlink_inner k tp q x [] r h (ground arith)
  | inl e ↦ unlink_only k tp q x r (ground arith)
]
unlink-erase k tp q (x ∷ y ∷ ys) r h = elim (Bool-cases (q == tp)) [
  | inr e ↦ unlink_inner k tp q x (y ∷ ys) r h (ground arith)
  | inl e ↦ unlink_tail k tp q x y ys r h (ground arith)
]

-- `outProcQ` of a pcb in a queue of at most MAXPROC pcbs returns it, erases it from the queue and
-- clears its links.
pub out_proc_q-erase :
    (k : Kernel) (tp q : Ptr) (xs : List Ptr)
    → IsProcQ k tp xs
    → length xs ≤ maxproc
    → has q xs ≡ true
    → Returns (Erased q xs k) (out_proc_q tp q k)
unfolding out_proc_q
out_proc_q-erase k tp q [] r fits h = cc
out_proc_q-erase k tp q (x ∷ xs) r fits h =
    let s = search k tp q x xs r fits in
    simp (ne_null tp (tail_ne x xs r), s.1, s.2 ∙ h) (unlink-erase k tp q (x ∷ xs) r h)
