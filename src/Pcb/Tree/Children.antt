-- ===== src/Pcb/Tree/Children.antt =====
-- The lists of children of phase1/pcb.c: insertion and removal of the first child.
use operating_system_cs.Base.{
  ◌≡◌, ◌≢◌, refl, ap, List, [], ◌∷◌, ◌++◌, true, false, arith, has, has-last, has-append, eq_of_==,
  ==-refl, ◌==◌,
}
use operating_system_cs.Ring.{Ptr, null, Ring, Ring-at}
use operating_system_cs.Ring.Edit.{insert_first, insert_last, remove_head, head-ne-tail}
use operating_system_cs.Kernel.{Kernel}
use operating_system_cs.Kernel.Run.{Returns, ne_null}
use operating_system_cs.Pcb.Queue.{first, rest, tail_ne, head_ne}
use operating_system_cs.Pcb.Tree.{insert_child, remove_child}

-- The children of `prnt` are `xs`, the oldest first, and each of them points back to `prnt`.
pub record IsChildren (k : Kernel) (prnt : Ptr) (xs : List Ptr) : Type 0 where
  pub ring : Ring k.p_next_sib k.p_prev_sib (k.p_child prnt) xs
  pub parent : (c : Ptr) → has c xs ≡ true → k.p_prnt c ≡ prnt

-- Only the tree links change: of siblings and parents those of `s`, of `p_child` that of `prnt`.
pub record TreeOnly (prnt : Ptr) (s : List Ptr) (k k' : Kernel) : Type 0 where
  pub same : k' ≡ record k {
    p_next_sib = k'.p_next_sib;
    p_prev_sib = k'.p_prev_sib;
    p_child = k'.p_child;
    p_prnt = k'.p_prnt;
  }
  pub outside :
      (c : Ptr)
      → has c s ≡ false
      → (k'.p_next_sib c ≡ k.p_next_sib c)
        × (k'.p_prev_sib c ≡ k.p_prev_sib c)
        × (k'.p_prnt c ≡ k.p_prnt c)
  pub child : (c : Ptr) → c ≢ prnt → k'.p_child c ≡ k.p_child c

-- `insertChild` makes a pcb that is not a child yet the last child of its parent, neither of them
-- `NULL`.
pub insert_child-append :
    (k : Kernel) (prnt q : Ptr) (xs : List Ptr)
    → IsChildren k prnt xs
    → has q xs ≡ false
    → q ≢ null
    → prnt ≢ null
    → Returns
        (λ _ k'. IsChildren k' prnt (xs ++ q ∷ []) × TreeOnly prnt (q ∷ xs) k k')
        (insert_child prnt q k)
unfolding insert_child
insert_child-append k prnt q [] r new ne pne =
    simp (r.ring.tail, ne_null q ne, ne_null prnt pne)
      (
        record {
          ring = Ring-at (insert_first q ne (ground arith) (ground arith)) (ground arith);
          parent = λ c m. ground arith;
        },
        record { same = refl; outside = λ c h. ground arith; child = λ c h. ground arith },
      )
insert_child-append k prnt q (x ∷ xs) r new ne pne =
    simp
      (
        ne_null (k.p_child prnt) (tail_ne x xs r.ring),
        ne_null q ne,
        apart,
        r.ring.links.0,
        ne_null x (head_ne x xs r.ring),
        ne_null prnt pne,
      )
      (
        record {
          ring =
              Ring-at
                (insert_last x xs _ _ r.ring new ne (λ c. ground (arith, r.ring.links.0))
                  (λ c. ground (arith, r.ring.links.0, apart)))
                (ground arith);
          parent = λ c m. ground (arith, has-append c (x ∷ xs) (q ∷ []), r.parent c);
        },
        record {
          same = refl;
          outside = λ c h. ground (arith, r.ring.tail, has-last x xs, eq_of_== c (k.p_child prnt));
          child = λ c h. ground arith;
        },
      )
  where
    apart : (k.p_child prnt == q) ≡ false
    apart = ground (arith, r.ring.tail, has-last x xs, eq_of_== (k.p_child prnt) q)

-- `removeChild` takes the first child off its parent, which is not `NULL`, and returns `NULL` if
-- there is none.
pub remove_child-rest :
    (k : Kernel) (prnt : Ptr) (xs : List Ptr)
    → IsChildren k prnt xs
    → prnt ≢ null
    → Returns
        (λ rm k'.
          (rm ≡ first xs)
          × IsChildren k' prnt (rest xs)
          × (has rm xs ≡ true → k'.p_prnt rm ≡ null)
          × TreeOnly prnt xs k k')
        (remove_child prnt k)
unfolding remove_child
remove_child-rest k prnt [] r pne =
    simp (r.ring.tail, ne_null prnt pne)
      (
        refl,
        record { ring = r.ring; parent = λ c m. cc },
        λ m. cc,
        record { same = refl; outside = λ c h. ground arith; child = λ c h. refl },
      )
remove_child-rest k prnt (x ∷ []) r pne =
    simp (r.ring.tail, ne_null prnt pne, ne_null x (head_ne x [] r.ring), loop, ==-refl x)
      (
        refl,
        record {
          ring = record { tail = ground arith; links = tt; distinct = tt; no_null = refl };
          parent = λ c m. cc;
        },
        λ m. ground arith,
        record { same = refl; outside = λ c h. ground arith; child = λ c h. ground arith },
      )
  where
    loop : k.p_next_sib x ≡ x
    loop = ground (arith, r.ring.links.0, ap k.p_next_sib r.ring.tail)
remove_child-rest k prnt (x ∷ y ∷ ys) r pne =
    simp
      (
        ne_null (k.p_child prnt) (tail_ne x (y ∷ ys) r.ring),
        ne_null prnt pne,
        r.ring.links.0,
        ne_null x (head_ne x (y ∷ ys) r.ring),
        apart,
        r.ring.links.2.0,
        ne_null y y_ne,
      )
      (
        refl,
        record {
          ring =
              remove_head x y ys _ _ r.ring (λ c. ground (arith, r.ring.links.2.0))
                (λ c. ground (arith, r.ring.links.2.0));
          parent = λ c m. ground (arith, r.parent c, r.ring.distinct.0, eq_of_== c x);
        },
        λ m. ground arith,
        record {
          same = refl;
          outside = λ c h. ground (arith, r.ring.tail, has-last y ys, eq_of_== c (k.p_child prnt));
          child = λ c h. ground arith;
        },
      )
  where
    apart : (x == k.p_child prnt) ≡ false
    apart = ground (arith, head-ne-tail x y ys r.ring)

    y_ne : y ≢ null
    y_ne = ground (arith, r.ring.no_null)
