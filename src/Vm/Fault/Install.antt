-- ===== src/Vm/Fault/Install.antt =====
-- Frames and page tables with one page made absent, and with one made present (phase3/vmSupport.c).
use operating_system_cs.Base.{
  ℕ, ◌<◌, ◌≡◌, ◌≢◌, refl, sym, ap, ◌∙◌, false, arith, upd, ◌==◌, Bool-cases, inl, inr, eq_of_==,
  ==-refl, upd-same, upd-other, ==-of_ne, bit_and, bit_or, [],
}
use mathlib.Core.Path.{subst}
use operating_system_cs.Ring.{Ptr, null}
use operating_system_cs.Support.{Store}
use operating_system_cs.Support.Const.{minus_one, swap_pool_size, iecbiton, iecbitoff, pte_elem}
use operating_system_cs.Support.Code.{done}
use operating_system_cs.Support.Machine.{slt}
use operating_system_cs.Vm.Geometry.{disk_size}
use operating_system_cs.Vm.Fault.{install, table_index, backing_sector, absent_lo, present_lo}
use operating_system_cs.Vm.Fault.Rely.{is_valid, dimensions, Same}
use operating_system_cs.Vm.Fault.Mapped.{InFrame, IsMapped, IsVacant}

-- The memory with the entry `e` made absent.
unfoldable pub without : Store → Ptr → Store
without s e = record s {
  entry_lo = upd s.entry_lo e absent_lo;
  status = bit_or (bit_and s.status iecbitoff) iecbiton;
  tlb = [];
}

pub without-Same : (sup : Ptr) (s : Store) (e : Ptr) → Same sup s (without s e)
unfolding without
without-Same sup s e = record {
  asid = refl;
  vpn = refl;
  entry = refl;
  next = refl;
  own_asid = refl;
  geometry = refl;
  valid = λ d ok. ground (arith, ok);
}

-- The entry stays absent.
pub absent_later :
    (sup : Ptr) (s s' : Store) (e : Ptr)
    → Same sup (without s e) s'
    → is_valid (s'.entry_lo e) ≡ false
unfolding without
absent_later sup s s' e h = elim (Bool-cases (is_valid (s'.entry_lo e))) [
  | inl ok ↦ ground (arith, ap is_valid (h.valid e ok), ok)
  | inr bad ↦ bad
]

-- The memory after `install`.
unfoldable pub installed : Store → (sup : Ptr) → (i vpn : ℕ) → Store
installed s sup i vpn = record s {
  asid = upd s.asid i (s.sup_asid sup);
  vpn = upd s.vpn i vpn;
  matching_pg_table_entry = upd s.matching_pg_table_entry i (pte_elem sup (table_index vpn));
  entry_lo = upd s.entry_lo (pte_elem sup (table_index vpn)) (present_lo i);
  status = bit_or (bit_and s.status iecbitoff) iecbiton;
  tlb = [];
}

pub install-installed :
    (s : Store) (sup : Ptr) (i vpn : ℕ) → install i vpn sup s ≡ done tt (installed s sup i vpn)
unfolding install installed
install-installed s sup i vpn = simp (==-refl i)

-- The page `vpn` of the process stands in the frame `i`.
abbrev pub Holds : Store → (sup : Ptr) → (own vpn : ℕ) → ℕ → Type 0
Holds s sup own vpn i =
    InFrame s (pte_elem sup (table_index vpn)) i × ((s.asid i ≡ own) × (s.vpn i ≡ vpn))

module _ (s : Store) (sup : Ptr) (i vpn : ℕ) (vacant : IsVacant s i) (lt : i < swap_pool_size)
    (user : s.sup_asid sup ≢ minus_one) (table : pte_elem sup (table_index vpn) ≢ null)
    (fits : slt (disk_size (dimensions s)) (backing_sector (s.sup_asid sup) (table_index vpn))
      ≡ false) where
  abbrev pub e0 : Ptr
  e0 = pte_elem sup (table_index vpn)

  pub installed-Holds : Holds (installed s sup i vpn) sup (s.sup_asid sup) vpn i
  unfolding installed
  installed-Holds = (
    (
      lt,
      λ m. user (sym (upd-same s.asid i (s.sup_asid sup)) ∙ m),
      upd-same s.matching_pg_table_entry i e0,
      upd-same s.entry_lo e0 (present_lo i),
    ),
    (upd-same s.asid i (s.sup_asid sup), upd-same s.vpn i vpn),
  )

  pub installed-IsMapped : IsMapped (installed s sup i vpn)
  unfolding installed
  installed-IsMapped = record {
    pool = record {
      next_in_pool = vacant.pool.next_in_pool;
      has_entry = λ j l occ. elim (Bool-cases (j == i)) [
        | inl e ↦ simp e table
        | inr e ↦
            simp e
              (vacant.pool.has_entry j l (λ m. occ (upd-other s.asid i j (s.sup_asid sup) e ∙ m)))
      ];
      has_sector = λ j l occ. elim (Bool-cases (j == i)) [
        | inl e ↦ simp e fits
        | inr e ↦
            simp e
              (vacant.pool.has_sector j l (λ m. occ (upd-other s.asid i j (s.sup_asid sup) e ∙ m)))
      ];
    };
    mapped = λ e ok. elim (Bool-cases (e == e0)) [
      | inl q ↦ (
        i,
        subst (λ z. InFrame (installed s sup i vpn) z i) (sym (eq_of_== e e0 q))
            (installed-Holds).0,
      )
      | inr q ↦
          let lo = upd-other s.entry_lo e0 e (present_lo i) q in
          let m = vacant.mapped e (ap is_valid (sym lo) ∙ ok) in
          let apart : (m.0 == i) ≡ false = ==-of_ne m.0 i m.1.0 in
          (
            m.0,
            (
              m.1.1.0,
              λ n. m.1.1.1 (sym (upd-other s.asid i m.0 (s.sup_asid sup) apart) ∙ n),
              upd-other s.matching_pg_table_entry i m.0 e0 apart ∙ m.1.1.2,
              lo ∙ m.1.1.3,
            ),
          )
    ];
  }
