-- ===== src/Ring/Erase.antt =====
-- What the assignments of `outProcQ` and `outChild` do to a ring: they unlink one element.
use operating_system_cs.Base.{
  ◌≡◌, ◌≢◌, sym, ap, ◌∙◌, List, [], ◌∷◌, true, false, arith, has, Distinct, last, front, erase, upd,
  ◌==◌, eq_of_==, ==-refl, Bool-cases, inl, inr, has-last, has-front, front-last, erase-last,
  has-erase, not-has-erase, Distinct-erase,
}
use mathlib.Core.Path.{subst}
use operating_system_cs.Ring.{Ptr, null, Field, Links, Ring, IsTail, Ring-intro, Links-frame}

pub has-front_of_ne :
    (q a : Ptr) (xs : List Ptr) → has q (a ∷ xs) ≡ true → q ≢ last a xs → has q (front a xs) ≡ true
has-front_of_ne q a [] h ne = absurd (ground arith)
has-front_of_ne q a (x ∷ xs) h ne = ground (arith, has-front_of_ne q x xs)

pub last-erase :
    (q a x : Ptr) (xs : List Ptr) → q ≢ last x xs → last a (erase q (x ∷ xs)) ≡ last x xs
last-erase q a x [] ne = ground arith
last-erase q a x (y ∷ ys) ne = elim (Bool-cases (x == q)) [
  | inl e ↦ rw e
  | inr e ↦ rw e (last-erase q x y ys ne)
]

pub IsTail-erase :
    (q x : Ptr) (xs : List Ptr) → q ≢ last x xs → IsTail (last x xs) (erase q (x ∷ xs))
IsTail-erase q x [] ne = ground arith
IsTail-erase q x (y ∷ ys) ne = elim (Bool-cases (x == q)) [
  | inl e ↦ rw e
  | inr e ↦ rw e (sym (last-erase q x y ys ne))
]

module _ (n p : Field) where
  -- The predecessor of a linked element stands before the last one.
  pub has-prev :
      (a : Ptr) (xs : List Ptr) (q : Ptr)
      → Links n p a xs
      → has q xs ≡ true
      → has (p q) (front a xs) ≡ true
  has-prev a [] q l h = cc
  has-prev a (x ∷ xs) q l h = ground (arith, eq_of_== q x, has-prev x xs q l.2)

  -- The successor of an element that is not the last one follows it.
  pub has-next :
      (a : Ptr) (xs : List Ptr) (q : Ptr)
      → Links n p a xs
      → has q (front a xs) ≡ true
      → has (n q) xs ≡ true
  has-next a [] q l h = cc
  has-next a (x ∷ xs) q l h = ground (arith, eq_of_== q a, has-next x xs q l.2)

  pub Links-front : (a x : Ptr) (xs : List Ptr) → Links n p a (x ∷ xs) → Links n p a (front x xs)
  Links-front a x [] l = tt
  Links-front a x (y ∷ ys) l = (l.0, l.1, Links-front x y ys l.2)

  pub prev-last :
      (x y : Ptr) (ys : List Ptr) → Links n p x (y ∷ ys) → p (last y ys) ≡ last x (front y ys)
  prev-last x y [] l = l.1
  prev-last x y (z ∷ zs) l = prev-last y z zs l.2

  -- The backward link undoes the forward link.
  pub prev-next :
      (a : Ptr) (xs : List Ptr) (q : Ptr) → Links n p a xs → has q (front a xs) ≡ true → p (n q) ≡ q
  prev-next a [] q l h = cc
  prev-next a (x ∷ xs) q l h = ground (arith, eq_of_== q a, l.0, l.1, prev-next x xs q l.2)

  pub prev-ne :
      (a : Ptr) (xs : List Ptr) (q : Ptr)
      → Links n p a xs
      → a ≢ q
      → Distinct xs
      → has q xs ≡ true
      → p q ≢ q
  prev-ne a [] q l ne d h = cc
  prev-ne a (x ∷ xs) q l ne d h = ground (arith, eq_of_== q x, l.1, d.0, prev-ne x xs q l.2)

-- Unlinking an element that is not the last one.
module _ {n p : Field} (q : Ptr) (n' p' : Field) (en : n' (p q) ≡ n q) (ep : p' (n q) ≡ p q)
    (same_n : (c : Ptr) → c ≢ p q → c ≢ q → n' c ≡ n c)
    (same_p : (c : Ptr) → c ≢ n q → c ≢ q → p' c ≡ p c) where
  pub Links-erase :
      (a x : Ptr) (xs : List Ptr)
      → Links n p a (x ∷ xs)
      → Distinct (x ∷ xs)
      → has a (front x xs) ≡ false
      → a ≢ q
      → has q (x ∷ xs) ≡ true
      → q ≢ last x xs
      → Links n' p' a (erase q (x ∷ xs))
  Links-erase a x [] l d fresh ne h not_last = absurd (ground arith)
  Links-erase a x (y ∷ ys) l d fresh ne h not_last = elim (Bool-cases (x == q)) [
    | inl e ↦ rw e (unlink e)
    | inr e ↦ rw e (keep e (λ m. Links-erase x y ys l.2 d.1 in_tail (rest_ne e) m not_last))
  ]
    where
      unlink : (x == q) ≡ true → Links n' p' a (y ∷ ys)
      unlink e =
          let x_is : x ≡ q = eq_of_== x q e in
          let pq : p q ≡ a = ground (arith, l.1) in
          let nq : n q ≡ y = ground (arith, l.2.0) in
          (
            ground (arith, en),
            ground (arith, ep),
            Links-frame y ys l.2.2
                (λ c m. ground (arith, same_n c, has-front c y ys, d.0, ==-refl c))
                (λ c m. ground (arith, same_p c, d.0, d.1.0, ==-refl c)),
          )

      in_tail : has x (front y ys) ≡ false
      in_tail = ground (arith, has-front x y ys, d.0)

      rest_ne : (x == q) ≡ false → x ≢ q
      rest_ne e = ground arith

      keep :
          (x == q) ≡ false
          → (has q (y ∷ ys) ≡ true → Links n' p' x (erase q (y ∷ ys)))
          → Links n' p' a (x ∷ erase q (y ∷ ys))
      keep e rec =
          let in_rest : has q (y ∷ ys) ≡ true = ground arith in
          let before : has (p q) (front x (y ∷ ys)) ≡ true =
            has-prev n p x (y ∷ ys) q l.2 in_rest in
          let in_front : has q (front y ys) ≡ true = has-front_of_ne q y ys in_rest not_last in
          let after : has (n q) ys ≡ true = has-next n p y ys q l.2.2 in_front in
          (
            ground (arith, same_n a, l.0, ==-refl a),
            ground (arith, same_p x, l.1, d.0, ==-refl x),
            rec in_rest,
          )

module _ {n p : Field} {t q : Ptr} (x : Ptr) (xs : List Ptr) (n' p' : Field)
    (r : Ring n p t (x ∷ xs)) (h : has q (x ∷ xs) ≡ true) where
  -- An element that is not the tail is unlinked, and the tail stays.
  pub erase_inner :
      q ≢ t
      → ((c : Ptr) → c ≢ q → n' c ≡ upd n (p q) (n q) c)
      → ((c : Ptr) → c ≢ q → p' c ≡ upd p (n q) (p q) c)
      → Ring n' p' t (erase q (x ∷ xs))
  erase_inner ne en ep =
      Ring-intro (erase q (x ∷ xs))
        (subst (λ s. IsTail s (erase q (x ∷ xs))) (sym r.tail) (IsTail-erase q x xs not_last))
        (Links-erase q n' p' (ground (arith, en (p q) prev_ne)) (ground (arith, ep (n q) next_ne))
          (λ c m k. ground (arith, en c)) (λ c m k. ground (arith, ep c)) t x xs r.links r.distinct
          (ground (arith, front-last x xs r.distinct, r.tail)) (ground arith) h not_last)
        (Distinct-erase q (x ∷ xs) r.distinct) (has-erase null q (x ∷ xs) r.no_null)
    where
      not_last : q ≢ last x xs
      not_last = ground (arith, r.tail)

      in_front : has q (front t (x ∷ xs)) ≡ true
      in_front = ground (arith, has-front_of_ne q x xs h not_last)

      prev_ne : p q ≢ q
      prev_ne = prev-ne n p t (x ∷ xs) q r.links (λ e. ne (sym e)) r.distinct h

      next_ne : n q ≢ q
      next_ne = λ e. prev_ne (ap p (sym e) ∙ prev-next n p t (x ∷ xs) q r.links in_front)

-- The tail is unlinked and its predecessor becomes the tail.
module _ {n p : Field} {t : Ptr} (q x y : Ptr) (ys : List Ptr) (n' p' : Field)
    (r : Ring n p t (x ∷ y ∷ ys)) (is : q ≡ t) (en : (c : Ptr) → c ≢ q → n' c ≡ upd n (p q) (n q) c)
    (ep : (c : Ptr) → c ≢ q → p' c ≡ upd p (n q) (p q) c) where
  rest : List Ptr
  rest = front x (y ∷ ys)

  erase_is : erase q (x ∷ y ∷ ys) ≡ rest
  unfolding rest
  erase_is =
      subst (λ s. erase s (x ∷ y ∷ ys) ≡ front x (y ∷ ys)) (sym (is ∙ r.tail))
        (erase-last x (y ∷ ys) r.distinct)

  rest-Distinct : Distinct rest
  rest-Distinct = subst Distinct erase_is (Distinct-erase q (x ∷ y ∷ ys) r.distinct)

  prev_is : p q ≡ last x (front y ys)
  prev_is = ap p (is ∙ r.tail) ∙ prev-last n p x y ys r.links.2

  x_ne : x ≢ q
  x_ne = ground (arith, r.tail, r.distinct.0, has-last y ys)

  prev_ne : p q ≢ q
  prev_ne =
      prev-ne n p x (y ∷ ys) q r.links.2 x_ne r.distinct.1 (ground (arith, r.tail, has-last y ys))

  q_out : has q rest ≡ false
  q_out = subst (λ l. has q l ≡ false) erase_is (not-has-erase q (x ∷ y ∷ ys) r.distinct)

  rest-Ring : Ring n' p' (p q) rest
  unfolding rest
  rest-Ring =
      Ring-intro rest prev_is
        (
          ground (arith, en (p q) prev_ne, ap n is, r.links.0),
          ground (arith, ep x x_ne, ap n is, r.links.0),
          Links-frame x (front y ys) (Links-front n p x y ys r.links.2) same_n same_p,
        )
        rest-Distinct
        (subst (λ l. has null l ≡ false) erase_is (has-erase null q (x ∷ y ∷ ys) r.no_null))
    where
      same_n : (c : Ptr) → has c (front x (front y ys)) ≡ true → n' c ≡ n c
      same_n c m = ground (
        arith,
        en c,
        prev_is,
        q_out,
        rest-Distinct,
        front-last x (front y ys) rest-Distinct,
        has-front c x (front y ys),
      )

      same_p : (c : Ptr) → has c (front y ys) ≡ true → p' c ≡ p c
      same_p c m = ground (arith, ep c, ap n is, q_out, rest-Distinct, r.links.0)

  pub erase_tail : Ring n' p' (p q) (erase q (x ∷ y ∷ ys))
  erase_tail = subst (Ring n' p' (p q)) (sym erase_is) rest-Ring
