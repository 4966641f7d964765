-- ===== src/Ring/Search.antt =====
-- What the searches of `outProcQ` and `outChild` walk through: from the tail over all elements
-- but the last, until the next element is the tail again.
use operating_system_cs.Base.{
  suc, ◌≡◌, ◌≢◌, true, Bool-cases, inl, inr, ◌==◌, eq_of_has, refl, ap, List, [], ◌∷◌, ◌∙◌, sym,
  false, arith, has, length, last, front, has-last, has-front, front-last, eq_of_==,
}
use operating_system_cs.Ring.{Ptr, null, Field, Links, Ring}
use operating_system_cs.Ring.Erase.{Links-front, has-front_of_ne, has-prev, has-next, prev-ne}

next-last-front :
    (n p : Field) (a x : Ptr) (xs : List Ptr)
    → Links n p a (x ∷ xs)
    → n (last a (front x xs)) ≡ last x xs
next-last-front n p a x [] l = l.0
next-last-front n p a x (y ∷ ys) l = next-last-front n p x y ys l.2

length-front : (x : Ptr) (xs : List Ptr) → length (front x xs) ≡ length xs
length-front x [] = refl
length-front x (y ∷ ys) = ap suc (length-front y ys)

-- The premises of the search, for a ring.
pub record Walk (n p : Field) (t : Ptr) (x : Ptr) (xs : List Ptr) (q : Ptr) : Type 0 where
  pub links : Links n p t (front x xs)
  pub back : n (last t (front x xs)) ≡ t
  pub away : has t (front x xs) ≡ false
  pub no_null : has null (front x xs) ≡ false
  pub short : length (front x xs) ≡ length xs
  pub visits : has q (t ∷ front x xs) ≡ has q (x ∷ xs)

pub Ring-Walk :
    {n p : Field} {t : Ptr} (x : Ptr) (xs : List Ptr) (q : Ptr)
    → Ring n p t (x ∷ xs)
    → Walk n p t x xs q
Ring-Walk {n} {p} {t} x xs q r = record {
  links = Links-front n p t x xs r.links;
  back = next-last-front n p t x xs r.links ∙ sym r.tail;
  away = ground (arith, front-last x xs r.distinct, r.tail);
  no_null = ground (arith, has-front null x xs, r.no_null);
  short = length-front x xs;
  visits =
      ground (arith, has-front q x xs, has-last x xs, has-front_of_ne q x xs, r.tail, eq_of_== q t);
}

-- The pointers that the unlinking goes through are not `NULL`, and belong to the queue.
module _ {n p : Field} {t : Ptr} (q x : Ptr) (xs : List Ptr) (r : Ring n p t (x ∷ xs))
    (h : has q (x ∷ xs) ≡ true) where
  pub next-in : has (n q) (x ∷ xs) ≡ true
  next-in = elim (Bool-cases (q == t)) [
    | inl e ↦ ground (arith, ap n (eq_of_== q t e), r.links.0)
    | inr e ↦ ground (arith, has-next n p t (x ∷ xs) q r.links, has-front_of_ne q x xs h, r.tail)
  ]

  pub prev-in : has (p q) (x ∷ xs) ≡ true
  prev-in = ground (
    arith,
    has-prev n p t (x ∷ xs) q r.links h,
    has-front (p q) x xs,
    has-last x xs,
    r.tail,
    eq_of_== (p q) t,
  )

  pub next_ne : n q ≢ null
  next_ne = ground (arith, next-in, r.no_null, eq_of_has (n q) null (x ∷ xs))

  pub prev_ne : p q ≢ null
  prev_ne = ground (arith, prev-in, r.no_null, eq_of_has (p q) null (x ∷ xs))

  pub elem_ne : q ≢ null
  elem_ne = ground (arith, r.no_null, eq_of_has q null (x ∷ xs))

  pub prev_ne_self : q ≢ t → p q ≢ q
  prev_ne_self ne = prev-ne n p t (x ∷ xs) q r.links (λ e. ne (sym e)) r.distinct h

-- The predecessor of the tail is another element, and so is the head.
module _ {n p : Field} {t : Ptr} (q x y : Ptr) (ys : List Ptr) (r : Ring n p t (x ∷ y ∷ ys))
    (is : q ≡ t) where
  pub head_ne_self : x ≢ q
  head_ne_self = ground (arith, r.tail, r.distinct.0, has-last y ys)

  pub tail_prev_ne : p q ≢ q
  tail_prev_ne =
      prev-ne n p x (y ∷ ys) q r.links.2 head_ne_self r.distinct.1
        (ground (arith, r.tail, has-last y ys))
