-- ===== src/Pcb/Tree/Out.antt =====
-- `outChild` of phase1/pcb.c takes a pcb off the children of its parent.
use operating_system_cs.Base.{
  upd, ne_of_has, ℕ, zero, suc, ◌+◌, ◌≤◌, ◌<◌, ◌≡◌, ◌≢◌, refl, ap, ◌∙◌, List, [], ◌∷◌, true, false,
  arith, has, length, last, front, erase, has-erase, not-has-erase, eq_of_==, ==-refl, ◌==◌,
  Bool-cases, inl, inr,
}
use operating_system_cs.Ring.{Ptr, null, Links, Ring-at}
use operating_system_cs.Ring.Search.{
  Ring-Walk, elem_ne, next_ne, prev_ne, next-in, prev-in, head_ne_self, tail_prev_ne,
}
use operating_system_cs.Ring.Erase.{erase_inner, erase_tail}
use operating_system_cs.Kernel.{Kernel}
use operating_system_cs.Kernel.Const.{maxproc}
use operating_system_cs.Kernel.Run.{Returns, ok, ne_null}
use operating_system_cs.Pcb.Queue.{tail_ne}
use operating_system_cs.Pcb.Tree.{out_child, out_child_loop, unlink_child}
use operating_system_cs.Pcb.Tree.Children.{IsChildren, TreeOnly}

out_child_loop-finds :
    (fuel : ℕ) (k : Kernel) (tp p c : Ptr) (zs : List Ptr)
    → Links k.p_next_sib k.p_prev_sib c zs
    → k.p_next_sib (last c zs) ≡ tp
    → has tp zs ≡ false
    → c ≢ null
    → has null zs ≡ false
    → length zs < fuel
    → (v : Ptr) × (out_child_loop fuel tp p c k ≡ ok v k) × ((v == p) ≡ has p (c ∷ zs))
unfolding out_child_loop
out_child_loop-finds zero k tp p c zs l end away ne nn h = absurd (omega arith)
out_child_loop-finds (suc fuel) k tp p c [] l end away ne nn h = elim (Bool-cases (c == p)) [
  | inl e ↦ (c, simp e, ground arith)
  | inr e ↦ (c, simp (e, ne_null c ne, end, ==-refl tp), ground arith)
]
out_child_loop-finds (suc fuel) k tp p c (z ∷ zs) l end away ne nn h =
    let go =
      out_child_loop-finds fuel k tp p z zs l.2 end (ground arith) (ground arith) (ground arith)
        (omega arith) in
    elim (Bool-cases (c == p)) [
      | inl e ↦ (c, simp e, ground arith)
      | inr e ↦ (go.0, simp (e, ne_null c ne, l.0, not_tp) go.1, ground (arith, go.2))
    ]
  where
    not_tp : (z == tp) ≡ false
    not_tp = ground arith

-- What `outChild` of a child of `prnt` returns and leaves.
pub record Orphaned (prnt q : Ptr) (xs : List Ptr) (k : Kernel) (o : Ptr) (k' : Kernel)
    : Type 0 where
  pub result : o ≡ q
  pub children : IsChildren k' prnt (erase q xs)
  pub parent_null : k'.p_prnt q ≡ null
  pub next_null : k'.p_next_sib q ≡ null
  pub prev_null : k'.p_prev_sib q ≡ null
  pub tree_only : TreeOnly prnt xs k k'

module _ (k : Kernel) (prnt q x : Ptr) (xs : List Ptr) (r : IsChildren k prnt (x ∷ xs))
    (pne : prnt ≢ null) (h : has q (x ∷ xs) ≡ true) where
  kept_parent : (c : Ptr) → has c (erase q (x ∷ xs)) ≡ true → upd k.p_prnt q null c ≡ prnt
  kept_parent c m = ground (
    arith,
    not-has-erase q (x ∷ xs) r.ring.distinct,
    has-erase c q (x ∷ xs),
    r.parent c,
    eq_of_== c q,
  )

  sib_outside :
      (c : Ptr)
      → has c (x ∷ xs) ≡ false
      → (upd (upd k.p_next_sib (k.p_prev_sib q) (k.p_next_sib q)) q null c ≡ k.p_next_sib c)
        × (upd (upd k.p_prev_sib (k.p_next_sib q) (k.p_prev_sib q)) q null c ≡ k.p_prev_sib c)
        × (upd k.p_prnt q null c ≡ k.p_prnt c)
  sib_outside c m = ground (
    arith,
    ne_of_has c q (x ∷ xs) m h,
    ne_of_has c (k.p_next_sib q) (x ∷ xs) m (next-in q x xs r.ring h),
    ne_of_has c (k.p_prev_sib q) (x ∷ xs) m (prev-in q x xs r.ring h),
  )

  unlink_inner :
      q ≢ k.p_child prnt
      → Returns (Orphaned prnt q (x ∷ xs) k) (unlink_child prnt (k.p_child prnt) q k)
  unfolding unlink_child
  unlink_inner ne =
      simp
        (
          ne_null q (elem_ne q x xs r.ring h),
          ne_null (k.p_next_sib q) (next_ne q x xs r.ring h),
          ne_null (k.p_prev_sib q) (prev_ne q x xs r.ring h),
          not_tail,
        )
        (record {
          result = refl;
          children = record {
            ring = erase_inner x xs _ _ r.ring h ne (λ c m. ground arith) (λ c m. ground arith);
            parent = kept_parent;
          };
          parent_null = ground arith;
          next_null = ground arith;
          prev_null = ground arith;
          tree_only = record { same = refl; outside = sib_outside; child = λ c m. refl };
        })
    where
      not_tail : (k.p_child prnt == q) ≡ false
      not_tail = ground arith

-- The only child: its parent is left without children.
unlink_only :
    (k : Kernel) (prnt q x : Ptr)
    → IsChildren k prnt (x ∷ [])
    → prnt ≢ null
    → q ≡ k.p_child prnt
    → Returns (Orphaned prnt q (x ∷ []) k) (unlink_child prnt (k.p_child prnt) q k)
unfolding unlink_child
unlink_only k prnt q x r pne is =
    simp (is, r.ring.tail, ne_null x x_ne, ne_null prnt pne, next_self, prev_self, ==-refl x)
      (record {
        result = refl;
        children = record {
          ring = record {
            tail = ground arith;
            links = ground arith;
            distinct = ground arith;
            no_null = ground arith;
          };
          parent = λ c m. ground arith;
        };
        parent_null = ground arith;
        next_null = ground arith;
        prev_null = ground arith;
        tree_only = record {
          same = refl;
          outside = λ c m. ground arith;
          child = λ c m. ground arith;
        };
      })
  where
    x_ne : x ≢ null
    x_ne = ground (arith, r.ring.no_null)

    next_self : k.p_next_sib x ≡ x
    next_self = ground (arith, r.ring.links.0, ap k.p_next_sib r.ring.tail)

    prev_self : k.p_prev_sib x ≡ x
    prev_self = ground (arith, r.ring.links.1, ap k.p_prev_sib r.ring.tail)

-- The last of several children.
unlink_tail :
    (k : Kernel) (prnt q x y : Ptr) (ys : List Ptr)
    → IsChildren k prnt (x ∷ y ∷ ys)
    → prnt ≢ null
    → has q (x ∷ y ∷ ys) ≡ true
    → q ≡ k.p_child prnt
    → Returns (Orphaned prnt q (x ∷ y ∷ ys) k) (unlink_child prnt (k.p_child prnt) q k)
unfolding unlink_child
unlink_tail k prnt q x y ys r pne h is =
    simp
      (
        ne_null q (elem_ne q x (y ∷ ys) r.ring h),
        ne_null prnt pne,
        ne_null (k.p_next_sib q) (next_ne q x (y ∷ ys) r.ring h),
        ne_null (k.p_prev_sib q) (prev_ne q x (y ∷ ys) r.ring h),
        at_tail,
        next_apart,
        prev_apart,
      )
      (record {
        result = refl;
        children = record {
          ring =
              Ring-at
                (erase_tail q x y ys _ _ r.ring is (λ c m. ground arith) (λ c m. ground arith))
                (ground arith);
          parent = kept_parent k prnt q x (y ∷ ys) r pne h;
        };
        parent_null = ground arith;
        next_null = ground arith;
        prev_null = ground arith;
        tree_only = record {
          same = refl;
          outside = sib_outside k prnt q x (y ∷ ys) r pne h;
          child = λ c m. ground arith;
        };
      })
  where
    at_tail : (k.p_child prnt == q) ≡ true
    at_tail = ground arith

    next_apart : (q == k.p_next_sib q) ≡ false
    next_apart = ground (arith, ap k.p_next_sib is, r.ring.links.0, head_ne_self q x y ys r.ring is)

    prev_apart : (k.p_prev_sib q == q) ≡ false
    prev_apart = ground (arith, tail_prev_ne q x y ys r.ring is)

unlink-erase :
    (k : Kernel) (prnt q : Ptr) (xs : List Ptr)
    → IsChildren k prnt xs
    → prnt ≢ null
    → has q xs ≡ true
    → Returns (Orphaned prnt q xs k) (unlink_child prnt (k.p_child prnt) q k)
unlink-erase k prnt q [] r pne h = cc
unlink-erase k prnt q (x ∷ []) r pne h = elim (Bool-cases (q == k.p_child prnt)) [
  | inr e ↦ unlink_inner k prnt q x [] r pne h (ground arith)
  | inl e ↦ unlink_only k prnt q x r pne (ground arith)
]
unlink-erase k prnt q (x ∷ y ∷ ys) r pne h = elim (Bool-cases (q == k.p_child prnt)) [
  | inr e ↦ unlink_inner k prnt q x (y ∷ ys) r pne h (ground arith)
  | inl e ↦ unlink_tail k prnt q x y ys r pne h (ground arith)
]

-- `outChild` of one of at most MAXPROC children takes it off its parent's children, and clears
-- its links and its parent.
pub out_child-erase :
    (k : Kernel) (prnt q : Ptr) (xs : List Ptr)
    → IsChildren k prnt xs
    → length xs ≤ maxproc
    → prnt ≢ null
    → has q xs ≡ true
    → Returns (Orphaned prnt q xs k) (out_child q k)
unfolding out_child
out_child-erase k prnt q [] r fits pne h = cc
out_child-erase k prnt q (x ∷ xs) r fits pne h =
    let w = Ring-Walk x xs q r.ring in
    let s =
      out_child_loop-finds (maxproc + 1) k (k.p_child prnt) q (k.p_child prnt) (front x xs) w.links
        w.back w.away (tail_ne x xs r.ring) w.no_null (omega (arith, w.short)) in
    simp
      (
        ne_null q (elem_ne q x xs r.ring h),
        r.parent q h,
        ne_null prnt pne,
        ne_null (k.p_child prnt) (tail_ne x xs r.ring),
        s.1,
        s.2 ∙ w.visits ∙ h,
      )
      (unlink-erase k prnt q (x ∷ xs) r pne h)

-- `outChild` of a pcb with no parent returns `NULL` and changes nothing.
pub out_child-root :
    (k : Kernel) (q : Ptr) → q ≢ null → k.p_prnt q ≡ null → out_child q k ≡ ok null k
unfolding out_child
out_child-root k q ne root = simp (ne_null q ne, root)
