-- ===== src/Vm/Replace.antt =====
-- The choice of a frame by `page_replace` in phase3/vmSupport.c.
use operating_system_cs.Base.{
  ℕ, zero, suc, ◌+◌, ◌-◌, ◌%◌, ◌<◌, ◌≤◌, ◌≡◌, ◌≢◌, ◌⊎◌, refl, ap, ◌∙◌, List, [], ◌∷◌, true, false,
  arith, has, ◌==◌, eq_of_==, ==-refl, Bool-cases, inl, inr, Option, none, some,
}
use operating_system_cs.Ring.{Field}
use operating_system_cs.Support.{Store}
use operating_system_cs.Support.Const.{minus_one, swap_pool_size}
use operating_system_cs.Support.Code.{Code, pure, done, ◌>>=◌}
use operating_system_cs.Support.Logic.{Finishes}
use operating_system_cs.Vm.{first_empty, following, picked, page_replace}

-- All frames are occupied.
abbrev pub IsFull : Field → Type 0
IsFull asid = (i : ℕ) → i < swap_pool_size → asid i ≢ minus_one

-- What the search from `i` over `n` frames finds.
abbrev pub Found : Field → (i n : ℕ) → Option ℕ → Type 0
Found asid i n none = (j : ℕ) → i ≤ j → j < i + n → asid j ≢ minus_one
Found asid i n (some k) =
    (i ≤ k) × (k < i + n) × (asid k ≡ minus_one) × ((j : ℕ) → i ≤ j → j < k → asid j ≢ minus_one)

pub ne_of_== : (a b : ℕ) → (a == b) ≡ false → a ≢ b
ne_of_== a b h = ground arith

first_or_later :
    (asid : Field) (i j : ℕ)
    → i ≤ j
    → asid i ≢ minus_one
    → (suc i ≤ j → asid j ≢ minus_one)
    → asid j ≢ minus_one
first_or_later asid i j le h later = elim (Bool-cases (i == j)) [
  | inl e ↦ λ m. h (ap asid (eq_of_== i j e) ∙ m)
  | inr e ↦ later (ground arith)
]

later-Found :
    (asid : Field) (i n : ℕ) (r : Option ℕ)
    → asid i ≢ minus_one
    → Found asid (suc i) n r
    → Found asid i (suc n) r
later-Found asid i n none h f =
    λ j le lt. first_or_later asid i j le h (λ le'. f j le' (omega arith))
later-Found asid i n (some k) h f = (
  omega (arith, f.0),
  omega (arith, f.1),
  f.2,
  λ j le lt. first_or_later asid i j le h (λ le'. f.3 j le' lt),
)

pub first_empty-Found : (asid : Field) (i n : ℕ) → Found asid i n (first_empty asid i n)
unfolding first_empty
first_empty-Found asid i zero = λ j le lt. absurd (omega arith)
first_empty-Found asid i (suc n) = elim (Bool-cases (asid i == minus_one)) [
  | inl e ↦
      simp e
        (omega arith, omega arith, eq_of_== (asid i) minus_one e, λ j le lt. absurd (omega arith))
  | inr e ↦ simp e (
      later-Found asid i n (first_empty asid (suc i) n) (ne_of_== _ _ e)
        (first_empty-Found asid (suc i) n))
]

-- What `page_replace` may answer in the memory `s`.
pub record IsChoice (s : Store) (i : ℕ) (s' : Store) : Type 0 where
  pub in_pool : i < swap_pool_size
  pub next_in_pool : s'.next_frame < swap_pool_size
  pub free_or_next : (s.asid i ≡ minus_one) ⊎ (IsFull s.asid × (i ≡ s.next_frame))
  pub only : s' ≡ record s { next_frame = s'.next_frame }

-- `page_replace` returns a frame of the swap pool: an unoccupied one if there is one, otherwise the
-- next one in turn; `nextFrame` stays an index into the pool and nothing else changes.
pub page_replace-IsChoice :
    (s : Store) → s.next_frame < swap_pool_size → Finishes (IsChoice s) (page_replace s)
unfolding page_replace
page_replace-IsChoice s lt =
    by_search (first_empty s.asid 0 swap_pool_size) (first_empty-Found s.asid 0 swap_pool_size)
  where
    by_search :
        (r : Option ℕ) → Found s.asid 0 swap_pool_size r → Finishes (IsChoice s) (picked r s)
    by_search none f = record {
      in_pool = lt;
      next_in_pool = omega arith;
      free_or_next = inr (λ j l. f j (omega arith) l, refl);
      only = refl;
    }
    by_search (some k) f = record {
      in_pool = f.1;
      next_in_pool = ground arith;
      free_or_next = inl f.2;
      only = refl;
    }

-- `n` calls of `page_replace`.
unfoldable pub replace_times : ℕ → Code (List ℕ)
replace_times zero = pure []
replace_times (suc n) = do i ← page_replace; is ← replace_times n; pure (i ∷ is)

-- `n` frames in turn, from `x`.
unfoldable pub rotation : ℕ → ℕ → List ℕ
rotation zero x = []
rotation (suc n) x = x ∷ rotation n (following x)

search_full : (asid : Field) (r : Option ℕ) → Found asid 0 swap_pool_size r → IsFull asid → r ≡ none
search_full asid none f full = refl
search_full asid (some k) f full = absurd (full k f.1 f.2)

replace_full :
    (s : Store)
    → IsFull s.asid
    → page_replace s ≡ done s.next_frame (record s { next_frame = following s.next_frame })
unfolding page_replace
replace_full s full =
    rw (search_full s.asid _ (first_empty-Found s.asid 0 swap_pool_size) full) refl

replace_times-rotation :
    (n : ℕ) (s : Store)
    → s.next_frame < swap_pool_size
    → IsFull s.asid
    → replace_times n s
      ≡ done
          (rotation n s.next_frame)
          (record s { next_frame = (s.next_frame + n) % swap_pool_size })
unfolding replace_times rotation
replace_times-rotation zero s lt full =
    ap (λ m. done [] (record s { next_frame = m })) (omega arith)
replace_times-rotation (suc n) s lt full =
    let s1 : Store = record s { next_frame = following s.next_frame } in
    let e : (following s.next_frame + n) % swap_pool_size
        ≡ (s.next_frame + suc n) % swap_pool_size =
      omega arith in
    simp (replace_full s full, replace_times-rotation n s1 (omega arith) full)
      (ap (λ m. done (rotation (suc n) s.next_frame) (record s { next_frame = m })) e)

has-rotation :
    (n x k : ℕ) → x < swap_pool_size → k < n → has ((x + k) % swap_pool_size) (rotation n x) ≡ true
unfolding rotation
has-rotation zero x k lt h = absurd (omega arith)
has-rotation (suc n) x zero lt h =
    ap (λ z. has z (x ∷ rotation n (following x))) {x = (x + 0) % swap_pool_size} {y = x}
      (omega arith)
    ∙ ground (arith, ==-refl x)
has-rotation (suc n) x (suc k) lt h =
    ap (λ z. has z (x ∷ rotation n (following x))) {x = (x + suc k) % swap_pool_size}
      {y = (following x + k) % swap_pool_size} (omega arith)
    ∙ ground (arith, has-rotation n (following x) k (omega arith) (omega arith))

-- In a full pool as many calls of `page_replace` as there are frames return each frame of the pool,
-- and leave `nextFrame` where it was.
pub replace_times-all :
    (s : Store)
    → s.next_frame < swap_pool_size
    → IsFull s.asid
    → Finishes
        (λ is s'. (s' ≡ s) × ((j : ℕ) → j < swap_pool_size → has j is ≡ true))
        (replace_times swap_pool_size s)
replace_times-all s lt full = simp (replace_times-rotation swap_pool_size s lt full) (
  ap (λ m. record s { next_frame = m }) (omega arith),
  λ j l.
      ap (λ z. has z (rotation swap_pool_size s.next_frame)) {x = j}
        {y = (s.next_frame + (j + 32 - s.next_frame) % 32) % swap_pool_size} (omega arith)
      ∙ has-rotation swap_pool_size s.next_frame ((j + 32 - s.next_frame) % 32) lt (omega arith),
)
