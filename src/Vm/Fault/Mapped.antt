-- ===== src/Vm/Fault/Mapped.antt =====
-- The frames and the page tables agree after a page fault (phase3/vmSupport.c).
use operating_system_cs.Base.{ℕ, ◌<◌, ◌≡◌, ◌≢◌, sym, ap, ◌∙◌, true, false, arith}
use mathlib.Core.Path.{subst}
use operating_system_cs.Ring.{Ptr, Field, null}
use operating_system_cs.Support.{Store}
use operating_system_cs.Support.Const.{minus_one, swap_pool_size}
use operating_system_cs.Support.Machine.{slt}
use operating_system_cs.Vm.Geometry.{disk_size}
use operating_system_cs.Vm.Fault.{table_index, backing_sector, present_lo}
use operating_system_cs.Vm.Fault.Rely.{is_valid, dimensions, Same}

-- The page table entry `e` stands in an occupied frame, and says which.
abbrev pub InFrame : Store → Ptr → ℕ → Type 0
InFrame s e i =
    (i < swap_pool_size)
    × (s.asid i ≢ minus_one)
    × (s.matching_pg_table_entry i ≡ e)
    × (s.entry_lo e ≡ present_lo i)

-- Occupied frames have a page table entry and a sector on the disk.
pub record IsPool (asid vpn entry : Field) (next dims : ℕ) : Type 0 where
  pub next_in_pool : next < swap_pool_size
  pub has_entry : (i : ℕ) → i < swap_pool_size → asid i ≢ minus_one → entry i ≢ null
  pub has_sector :
      (i : ℕ)
      → i < swap_pool_size
      → asid i ≢ minus_one
      → slt (disk_size dims) (backing_sector (asid i) (table_index (vpn i))) ≡ false

abbrev pub Pool : Store → Type 0
Pool s = IsPool s.asid s.vpn s.matching_pg_table_entry s.next_frame (dimensions s)

-- The pool is in order, and each valid page table entry stands in an occupied frame that it names.
pub record IsMapped (s : Store) : Type 0 where
  pub pool : Pool s
  pub mapped : (e : Ptr) → is_valid (s.entry_lo e) ≡ true → (i : ℕ) × InFrame s e i

-- The same, and no valid entry stands in the frame `i`.
pub record IsVacant (s : Store) (i : ℕ) : Type 0 where
  pub pool : Pool s
  pub mapped : (e : Ptr) → is_valid (s.entry_lo e) ≡ true → (j : ℕ) × ((j ≢ i) × InFrame s e j)

pub Same-Pool : (sup : Ptr) (s s' : Store) → Same sup s s' → Pool s → Pool s'
Same-Pool sup s s' h p =
    subst (λ d. IsPool s'.asid s'.vpn s'.matching_pg_table_entry s'.next_frame d) (sym h.geometry)
      (subst (λ n. IsPool s'.asid s'.vpn s'.matching_pg_table_entry n (dimensions s)) (sym h.next)
        (subst (λ e. IsPool s'.asid s'.vpn e s.next_frame (dimensions s)) (sym h.entry)
          (subst (λ v. IsPool s'.asid v s.matching_pg_table_entry s.next_frame (dimensions s))
            (sym h.vpn)
            (subst (λ a. IsPool a s.vpn s.matching_pg_table_entry s.next_frame (dimensions s))
              (sym h.asid) p))))

-- An entry that is valid afterwards stands where it stood.
pub Same-InFrame :
    (sup : Ptr) (s s' : Store) (e : Ptr) (i : ℕ)
    → Same sup s s'
    → is_valid (s'.entry_lo e) ≡ true
    → InFrame s e i
    → InFrame s' e i
Same-InFrame sup s s' e i h ok f = (
  f.0,
  λ m. f.1 (ap (λ a. a i) (sym h.asid) ∙ m),
  ap (λ a. a i) h.entry ∙ f.2,
  h.valid e ok ∙ f.3,
)

pub was_valid :
    (sup : Ptr) (s s' : Store) (e : Ptr)
    → Same sup s s'
    → is_valid (s'.entry_lo e) ≡ true
    → is_valid (s.entry_lo e) ≡ true
was_valid sup s s' e h ok = ap is_valid (sym (h.valid e ok)) ∙ ok

pub Same-IsVacant :
    (sup : Ptr) (s s' : Store) (i : ℕ) → Same sup s s' → IsVacant s i → IsVacant s' i
Same-IsVacant sup s s' i h v = record {
  pool = Same-Pool sup s s' h v.pool;
  mapped = λ e ok.
      let m = v.mapped e (was_valid sup s s' e h ok) in
      (m.0, (m.1.0, Same-InFrame sup s s' e m.0 h ok m.1.1));
}

-- The entry of the frame `i` is not valid, if the frame is occupied.
abbrev pub Evicted : Store → ℕ → Store → Type 0
Evicted s i s' = s.asid i ≢ minus_one → is_valid (s'.entry_lo (s.matching_pg_table_entry i)) ≡ false

pub Evicted-IsVacant :
    (sup : Ptr) (s s' : Store) (i : ℕ) → IsMapped s → Same sup s s' → Evicted s i s' → IsVacant s' i
Evicted-IsVacant sup s s' i m h out = record {
  pool = Same-Pool sup s s' h m.pool;
  mapped = λ e ok.
      let f = m.mapped e (was_valid sup s s' e h ok) in
      (f.0, (other e ok f.0 f.1, Same-InFrame sup s s' e f.0 h ok f.1));
}
  where
    other : (e : Ptr) → is_valid (s'.entry_lo e) ≡ true → (j : ℕ) → InFrame s e j → j ≢ i
    other e ok j f same =
        let e1 : is_valid (s'.entry_lo (s.matching_pg_table_entry i)) ≡ false =
          out (λ n. f.1 (ap s.asid same ∙ n)) in
        let e2 : s.matching_pg_table_entry i ≡ e = ap s.matching_pg_table_entry (sym same) ∙ f.2 in
        ground (arith, sym (ap (λ x. is_valid (s'.entry_lo x)) e2) ∙ e1, ok)
