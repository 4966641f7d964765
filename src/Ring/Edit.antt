-- ===== src/Ring/Edit.antt =====
-- What the assignments of the insertions and of the removals of a head do to a ring.
use operating_system_cs.Base.{
  ◌≡◌, ◌≢◌, refl, List, [], ◌∷◌, ◌++◌, true, false, arith, has, last, front, upd, eq_of_==,
  has-append, has-last, last-append, Distinct-append, has-front, front-last,
}
use operating_system_cs.Ring.{Ptr, null, Field, Links, Ring, Links-frame}

pub Links-snoc :
    {n p n' p' : Field} (x : Ptr) (xs : List Ptr) (q : Ptr)
    → Links n p x xs
    → ((c : Ptr) → has c (front x xs) ≡ true → n' c ≡ n c)
    → ((c : Ptr) → has c xs ≡ true → p' c ≡ p c)
    → n' (last x xs) ≡ q
    → p' q ≡ last x xs
    → Links n' p' x (xs ++ q ∷ [])
Links-snoc x [] q l hn hp e f = (e, f, tt)
Links-snoc x (y ∷ ys) q l hn hp e f = (
  ground (arith, hn x),
  ground (arith, hp y),
  Links-snoc y ys q l.2 (λ c h. hn c (ground arith)) (λ c h. hp c (ground arith)) e f,
)

-- The branch of `insertProcQ` for an empty queue.
pub insert_first : {n p : Field} (q : Ptr) → q ≢ null → n q ≡ q → p q ≡ q → Ring n p q (q ∷ [])
insert_first q ne en ep = record {
  tail = refl;
  links = (en, ep, tt);
  distinct = (refl, tt);
  no_null = ground arith;
}

module _ {n p : Field} {t q : Ptr} where
  -- The branch for a queue with a tail.
  pub insert_last :
      (x : Ptr) (xs : List Ptr) (n' p' : Field)
      → Ring n p t (x ∷ xs)
      → has q (x ∷ xs) ≡ false
      → q ≢ null
      → ((c : Ptr) → n' c ≡ upd (upd n q (n t)) t q c)
      → ((c : Ptr) → p' c ≡ upd (upd p q t) (upd n q (n t) t) q c)
      → Ring n' p' q ((x ∷ xs) ++ q ∷ [])
  insert_last x xs n' p' r new ne en ep = record {
    tail = sym_last;
    links = (
      ground (arith, en q, t_in, r.tail, eq_of_== q t),
      ground (arith, ep x, r.tail, t_in),
      Links-snoc x xs q r.links.2 same_n same_p (ground (arith, en t, r.tail))
          (ground (arith, ep q, r.tail, t_in)),
    );
    distinct = Distinct-append (x ∷ xs) q r.distinct new;
    no_null = ground (arith, has-append null (x ∷ xs) (q ∷ []), r.no_null);
  }
    where
      t_in : has t (x ∷ xs) ≡ true
      t_in = ground (arith, r.tail, has-last x xs)

      sym_last : q ≡ last x (xs ++ q ∷ [])
      sym_last = ground (arith, last-append x xs q)

      same_n : (c : Ptr) → has c (front x xs) ≡ true → n' c ≡ n c
      same_n c h =
          ground (arith, en c, r.tail, front-last x xs r.distinct, has-front c x xs, eq_of_== c t)

      same_p : (c : Ptr) → has c xs ≡ true → p' c ≡ p c
      same_p c h = ground (arith, ep c, r.links.0, r.distinct.0, t_in)

module _ {n p : Field} {t : Ptr} where
  -- The head of a ring is the successor of its tail.
  pub next-tail : (x : Ptr) (xs : List Ptr) → Ring n p t (x ∷ xs) → n t ≡ x
  next-tail x xs r = r.links.0

  -- A queue of one element is emptied by `removeProcQ`: the removed head is the tail.
  pub remove_only : (x : Ptr) → Ring n p t (x ∷ []) → x ≡ t
  remove_only x r = ground (arith, r.tail)

  pub head-ne-tail : (x y : Ptr) (ys : List Ptr) → Ring n p t (x ∷ y ∷ ys) → x ≢ t
  head-ne-tail x y ys r = ground (arith, r.tail, r.distinct.0, has-last y ys)

  -- The assignments of `removeProcQ` leave the rest of the queue.
  pub remove_head :
      (x y : Ptr) (ys : List Ptr) (n' p' : Field)
      → Ring n p t (x ∷ y ∷ ys)
      → ((c : Ptr) → n' c ≡ upd n t (n x) c)
      → ((c : Ptr) → p' c ≡ upd p (n x) t c)
      → Ring n' p' t (y ∷ ys)
  remove_head x y ys n' p' r en ep = record {
    tail = r.tail;
    links = (
      ground (arith, en t, r.links.2.0),
      ground (arith, ep y, r.links.2.0),
      Links-frame y ys r.links.2.2 same_n same_p,
    );
    distinct = r.distinct.1;
    no_null = ground (arith, r.no_null);
  }
    where
      same_n : (c : Ptr) → has c (front y ys) ≡ true → n' c ≡ n c
      same_n c h = ground (arith, en c, r.tail, front-last y ys r.distinct.1, eq_of_== c t)

      same_p : (c : Ptr) → has c ys ≡ true → p' c ≡ p c
      same_p c h = ground (arith, ep c, r.links.2.0, r.distinct.1.0)
