-- ===== src/Chain.antt =====
-- `NULL`-terminated singly linked lists: the lists of free pcbs and of free semaphore descriptors
-- (phase1/pcb.c, phase1/asl.c), and the arrays that their initialisation links up.
use operating_system_cs.Base.{
  ℕ, zero, suc, ◌+◌, ◌<◌, ◌≡◌, ◌≢◌, refl, sym, ap, ◌∙◌, List, [], ◌∷◌, true, false, arith, has,
  Distinct, upd, eq_of_==, ◌==◌, Bool-cases, inl, inr,
}
use mathlib.Core.Path.{subst}
use operating_system_cs.Ring.{Ptr, null, Field}
use operating_system_cs.Kernel.Const.{array_elem}

-- From the head `h` the links lead through `xs` to `NULL`.
abbrev pub Links : Field → Ptr → List Ptr → Type 0
Links n h [] = h ≡ null
Links n h (x ∷ xs) = (h ≡ x) × (x ≢ null) × Links n (n x) xs

pub record Chain (n : Field) (h : Ptr) (xs : List Ptr) : Type 0 where
  pub links : Links n h xs
  pub distinct : Distinct xs

pub Links-frame :
    {n n' : Field} (h : Ptr) (xs : List Ptr)
    → Links n h xs
    → ((c : Ptr) → has c xs ≡ true → n' c ≡ n c)
    → Links n' h xs
Links-frame h [] l same = l
Links-frame {n} {n'} h (x ∷ xs) l same = (
  l.0,
  l.1,
  subst (λ h. Links n' h xs) (sym (same x (ground arith)))
      (Links-frame (n x) xs l.2 (λ c m. same c (ground arith))),
)

pub Chain-cons :
    {n : Field} {h : Ptr} (q : Ptr) (xs : List Ptr)
    → Chain n h xs
    → has q xs ≡ false
    → q ≢ null
    → Chain (upd n q h) q (q ∷ xs)
Chain-cons {n} {h} q xs c new ne = record {
  links = (
    refl,
    ne,
    subst (λ t. Links (upd n q h) t xs) (ground arith)
        (Links-frame {n = n} h xs c.links (λ d m. ground (arith, eq_of_== d q))),
  );
  distinct = (new, c.distinct);
}

-- A change of the link of an element that is not in the chain.
pub Chain-upd :
    {n : Field} {h : Ptr} (x v : Ptr) (xs : List Ptr)
    → Chain n h xs
    → has x xs ≡ false
    → Chain (upd n x v) h xs
Chain-upd {n} {h} x v xs c out = record {
  links =
      Links-frame {n = n} h xs c.links
        (λ d m. ground (arith, m, out, ap (λ d. has d xs) {x = d} {y = x}));
  distinct = c.distinct;
}

-- The chain behind its first element, which is taken out.
pub Chain-rest :
    {n : Field} {h : Ptr} (x : Ptr) (xs : List Ptr)
    → Chain n h (x ∷ xs)
    → Chain (upd n x null) (n x) xs
Chain-rest {n} x xs c =
    Chain-upd {n = n} x null xs (record { links = c.links.2; distinct = c.distinct.1 }) c.distinct.0

-- The elements `i` to `i + n - 1` of an array.
unfoldable pub elems : (base size i n : ℕ) → List Ptr
elems base size i zero = []
elems base size i (suc n) = array_elem base size i ∷ elems base size (suc i) n

-- The links that the loop of the initialisation writes: each of the first `n` elements of the
-- array points to the next one.
unfoldable pub linked : (base size n : ℕ) → Field → Field
linked base size zero f = f
linked base size (suc n) f =
    upd (linked base size n f) (array_elem base size n) (array_elem base size (suc n))

module _ (base size : ℕ) (pos : 0 < size) where
  elem-lt : (i j : ℕ) → i < j → array_elem base size i < array_elem base size j
  elem-lt i j h = grind arith

  has-elems : (j i n : ℕ) → j < i → has (array_elem base size j) (elems base size i n) ≡ false
  unfolding elems
  has-elems j i zero h = refl
  has-elems j i (suc n) h = ground (arith, elem-lt j i h, has-elems j (suc i) n (omega arith))

  Distinct-elems : (i n : ℕ) → Distinct (elems base size i n)
  unfolding elems
  Distinct-elems i zero = tt
  Distinct-elems i (suc n) = (has-elems i (suc i) n (omega arith), Distinct-elems (suc i) n)

  linked-elem :
      (f : Field) (n i : ℕ)
      → i < n
      → linked base size n f (array_elem base size i) ≡ array_elem base size (suc i)
  unfolding linked
  linked-elem f zero i h = absurd (omega arith)
  linked-elem f (suc n) i h = elim (Bool-cases (i == n)) [
    | inl e ↦ ground (
      arith,
      ap (array_elem base size) (eq_of_== i n e),
      ap (λ j. array_elem base size (suc j)) (eq_of_== i n e),
    )
    | inr e ↦ ground (arith, elem-lt i n (ground arith), linked-elem f n i (ground arith))
  ]

  chain_from :
      (f : Field) (last i n : ℕ)
      → ((j : ℕ) → j < last → f (array_elem base size j) ≡ array_elem base size (suc j))
      → f (array_elem base size last) ≡ null
      → array_elem base size last < null
      → i + n ≡ last
      → Links f (array_elem base size i) (elems base size i (suc n))
  unfolding elems
  chain_from f last i zero next end fits e = (
    refl,
    ground (arith, ap (array_elem base size) at_last),
    ap f (ap (array_elem base size) at_last) ∙ end,
  )
    where
      at_last : i ≡ last
      at_last = omega arith
  chain_from f last i (suc n) next end fits e = (
    refl,
    ground (arith, elem-lt i last (omega arith)),
    subst (λ h. Links f h (elems base size (suc i) (suc n))) (sym (next i (omega arith)))
        (chain_from f last (suc i) n next end fits (omega arith)),
  )

  -- The initialised array is one chain of all its elements.
  pub array-Chain :
      (f : Field) (last : ℕ)
      → array_elem base size last < null
      → Chain
          (upd (linked base size last f) (array_elem base size last) null)
          (array_elem base size 0)
          (elems base size 0 (suc last))
  array-Chain f last fits = record {
    links =
        chain_from (upd (linked base size last f) (array_elem base size last) null) last 0 last
          (λ j h. ground (arith, elem-lt j last h, linked-elem f last j h)) (ground arith) fits
          (omega arith);
    distinct = Distinct-elems 0 (suc last);
  }
