-- ===== src/Ring.antt =====
-- Circular doubly linked lists reached by a tail pointer: the shape of the process queues
-- (phase1/pcb.c, `p_next` and `p_prev`) and of the lists of siblings (`p_next_sib`, `p_prev_sib`).
-- A pair of link fields is a pair of functions from pointers to pointers.
pub mod Edit
pub mod Erase
pub mod Search
use mathlib.Core.Path.{subst}
use operating_system_cs.Base.{
  ℕ, ◌≡◌, sym, List, [], ◌∷◌, true, false, arith, has, false, Distinct, last, front, has-last,
  has-front, eq_of_==,
}

abbrev pub Ptr : Type 0
Ptr = ℕ

-- `NULL` of h/const.h.
abbrev pub null : Ptr
null = 0xFFFF_FFFF

abbrev pub Field : Type 0
Field = Ptr → Ptr

-- From `a` the forward links lead through `xs`, and the backward links lead back.
abbrev pub Links : Field → Field → Ptr → List Ptr → Type 0
Links n p a [] = Unit
Links n p a (x ∷ xs) = (n a ≡ x) × (p x ≡ a) × Links n p x xs

-- `t` points to the last element; the tail pointer of an empty queue is `NULL`.
abbrev pub IsTail : Ptr → List Ptr → Type 0
IsTail t [] = t ≡ null
IsTail t (x ∷ xs) = t ≡ last x xs

-- The tail pointer `t` stands for the queue `xs`, its head first.
pub record Ring (n p : Field) (t : Ptr) (xs : List Ptr) : Type 0 where
  pub tail : IsTail t xs
  pub links : Links n p t xs
  pub distinct : Distinct xs
  pub no_null : has null xs ≡ false

pub Ring-intro :
    {n p : Field} {t : Ptr} (xs : List Ptr)
    → IsTail t xs
    → Links n p t xs
    → Distinct xs
    → has null xs ≡ false
    → Ring n p t xs
Ring-intro xs a b c d = record { tail = a; links = b; distinct = c; no_null = d }

-- The links of a list depend on the forward links before its last element and on the backward
-- links of its elements.
pub Links-frame :
    {n p n' p' : Field} (a : Ptr) (xs : List Ptr)
    → Links n p a xs
    → ((c : Ptr) → has c (front a xs) ≡ true → n' c ≡ n c)
    → ((c : Ptr) → has c xs ≡ true → p' c ≡ p c)
    → Links n' p' a xs
Links-frame a [] l hn hp = tt
Links-frame a (x ∷ xs) l hn hp = (
  ground (arith, hn a),
  ground (arith, hp x),
  Links-frame x xs l.2 (λ c h. hn c (ground arith)) (λ c h. hp c (ground arith)),
)

-- A ring survives any change of the links outside its elements.
pub Ring-frame :
    {n p n' p' : Field} {t : Ptr} (xs : List Ptr)
    → Ring n p t xs
    → ((c : Ptr) → has c xs ≡ true → (n' c ≡ n c) × (p' c ≡ p c))
    → Ring n' p' t xs
Ring-frame [] r h = record { tail = r.tail; links = tt; distinct = tt; no_null = r.no_null }
Ring-frame {n} {p} {n'} {p'} {t} (x ∷ xs) r h = record {
  tail = r.tail;
  links = Links-frame t (x ∷ xs) r.links (λ c m. (h c (in_ring c m)).0) (λ c m. (h c m).1);
  distinct = r.distinct;
  no_null = r.no_null;
}
  where
    in_ring : (c : Ptr) → has c (front t (x ∷ xs)) ≡ true → has c (x ∷ xs) ≡ true
    in_ring c m = ground (arith, r.tail, has-last x xs, has-front c x xs, eq_of_== c t)

pub Ring-at : {n p : Field} {s t : Ptr} {xs : List Ptr} → Ring n p t xs → s ≡ t → Ring n p s xs
Ring-at {n} {p} {xs} r e = subst (λ u. Ring n p u xs) (sym e) r
