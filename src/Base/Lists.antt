-- ===== src/Base/Lists.antt =====
-- Lists of pointers: length, membership as a Boolean, distinctness, the last element.
use Prim.Native.Nat.{ℕ, suc, ◌+◌}
use mathlib.Core.Path.{◌≡◌, refl, ap}
use mathlib.Core.Bool.{Bool, true, false, ◌||◌}
use mathlib.Core.List.{List, [], ◌∷◌, ◌++◌}
use native.Mathlib.Omega.{arith}
use mathlib.Core.Logic.{inl, inr, ◌≢◌}
use operating_system_cs.Base.Tests.{◌==◌, if◌then◌else◌, eq_of_==, Bool-cases}

module _ {ℓ} {A : Type ℓ} where
  abbrev pub length : List A → ℕ
  length [] = 0
  length (x ∷ xs) = suc (length xs)

  pub length-append : (xs ys : List A) → length (xs ++ ys) ≡ length xs + length ys
  length-append [] ys = omega arith
  length-append (x ∷ xs) ys = omega (arith, length-append xs ys)

abbrev pub has : ℕ → List ℕ → Bool
has a [] = false
has a (x ∷ xs) = (a == x) || has a xs

-- No element stands twice.
abbrev pub Distinct : List ℕ → Type 0
Distinct [] = Unit
Distinct (x ∷ xs) = (has x xs ≡ false) × Distinct xs

-- The last element of `x ∷ xs`.
abbrev pub last : ℕ → List ℕ → ℕ
last x [] = x
last x (y ∷ ys) = last y ys

-- `xs` without its first occurrence of `a`.
abbrev pub erase : ℕ → List ℕ → List ℕ
erase a [] = []
erase a (x ∷ xs) = if x == a then xs else x ∷ erase a xs

pub has-append : (a : ℕ) (xs ys : List ℕ) → has a (xs ++ ys) ≡ (has a xs || has a ys)
has-append a [] ys = refl
has-append a (x ∷ xs) ys = ground (arith, has-append a xs ys)

pub has-last : (x : ℕ) (xs : List ℕ) → has (last x xs) (x ∷ xs) ≡ true
has-last x [] = ground arith
has-last x (y ∷ ys) = ground (arith, has-last y ys)

pub last-append : (x : ℕ) (xs : List ℕ) (y : ℕ) → last x (xs ++ y ∷ []) ≡ y
last-append x [] y = refl
last-append x (z ∷ zs) y = last-append z zs y

pub Distinct-append :
    (xs : List ℕ) (y : ℕ) → Distinct xs → has y xs ≡ false → Distinct (xs ++ y ∷ [])
Distinct-append [] y d h = (refl, tt)
Distinct-append (x ∷ xs) y d h =
    (ground (arith, has-append x xs (y ∷ [])), Distinct-append xs y d.1 (ground arith))

-- `x ∷ xs` without its last element.
abbrev pub front : ℕ → List ℕ → List ℕ
front x [] = []
front x (y ∷ ys) = x ∷ front y ys

pub has-front : (c x : ℕ) (xs : List ℕ) → has c (front x xs) ≡ true → has c (x ∷ xs) ≡ true
has-front c x [] h = cc
has-front c x (y ∷ ys) h = ground (arith, has-front c y ys)

-- In a list with no repetition the last element does not stand in front of it.
pub front-last : (x : ℕ) (xs : List ℕ) → Distinct (x ∷ xs) → has (last x xs) (front x xs) ≡ false
front-last x [] d = refl
front-last x (y ∷ ys) d = ground (arith, front-last y ys d.1, has-last y ys, eq_of_== (last y ys) x)

pub erase-last : (x : ℕ) (xs : List ℕ) → Distinct (x ∷ xs) → erase (last x xs) (x ∷ xs) ≡ front x xs
erase-last x [] d = ground arith
erase-last x (y ∷ ys) d = ground (arith, erase-last y ys d.1, has-last y ys, eq_of_== x (last y ys))

pub has-erase : (c a : ℕ) (xs : List ℕ) → has c xs ≡ false → has c (erase a xs) ≡ false
has-erase c a [] h = refl
has-erase c a (x ∷ xs) h = ground (arith, has-erase c a xs)

pub not-has-erase : (a : ℕ) (xs : List ℕ) → Distinct xs → has a (erase a xs) ≡ false
not-has-erase a [] d = refl
not-has-erase a (x ∷ xs) d = ground (arith, not-has-erase a xs)

pub Distinct-erase : (a : ℕ) (xs : List ℕ) → Distinct xs → Distinct (erase a xs)
Distinct-erase a [] d = tt
Distinct-erase a (x ∷ xs) d = elim (Bool-cases (x == a)) [
  | inl e ↦ rw e d.1
  | inr e ↦ rw e (has-erase x a xs d.0, Distinct-erase a xs d.1)
]

-- Pointers that a list tells apart differ.
pub eq_of_has : (a b : ℕ) (xs : List ℕ) → a ≡ b → has a xs ≡ has b xs
eq_of_has a b xs e = ap (λ c. has c xs) e

pub ne_of_has : (a b : ℕ) (xs : List ℕ) → has a xs ≡ false → has b xs ≡ true → a ≢ b
ne_of_has a b xs h k e = cc (eq_of_has a b xs e)
