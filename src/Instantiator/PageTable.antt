-- ===== src/Instantiator/PageTable.antt =====
-- The page table of a new user process (phase3/initProc.c), and the TLB refill from it
-- (phase3/vmSupport.c).
use operating_system_cs.Base.{
  ℕ, zero, suc, ◌+◌, ◌%◌, ◌<◌, ◌≤◌, ◌≡◌, ◌∷◌, refl, ap, ◌∙◌, true, false, arith, upd, if◌then◌else◌,
  ◌==◌, Bool-cases, inl, inr, eq_of_==, every_below, every_below-at, bit_and, shr,
}
use operating_system_cs.Ring.{Ptr}
use operating_system_cs.Support.{Store}
use operating_system_cs.Support.Const.{pte_elem, page_table_size, uproc_stack_vpn, startvpn}
use operating_system_cs.Support.Code.{load_state, done, ◌>>◌}
use operating_system_cs.Support.Logic.{After}
use operating_system_cs.Vm.{missing_vpn, u_tlb_refill_handler}
use operating_system_cs.Vm.Fault.{absent_lo}
use operating_system_cs.Instantiator.{
  set_entries, init_uproc_pg_table, user_entry_hi, stack_entry_hi,
}

-- The entry of page `i` that the table should have.
abbrev pub wanted_hi : (asid i : ℕ) → ℕ
wanted_hi a i = if i == 31 then stack_entry_hi a else user_entry_hi a i

-- The page `i` of a user process.
abbrev pub page_vpn : ℕ → ℕ
page_vpn i = if i == 31 then uproc_stack_vpn else startvpn + i

vpn_table : every_below 32 (λ i. bit_and (page_vpn i) 0xFFFFF == page_vpn i) ≡ true
unfolding every_below
vpn_table = refl

wanted_hi-shr : (a i : ℕ) → a < 64 → i < 32 → shr (wanted_hi a i) 12 ≡ page_vpn i
wanted_hi-shr a i la li = ground (arith, la, li)

missing_vpn-wanted_hi : (a i : ℕ) → a < 64 → i < 32 → missing_vpn (wanted_hi a i) ≡ page_vpn i
missing_vpn-wanted_hi a i la li =
    ap (λ w. bit_and w 0xFFFFF) (wanted_hi-shr a i la li)
    ∙ eq_of_== (bit_and (page_vpn i) 0xFFFFF) (page_vpn i) (every_below-at 32 _ i vpn_table li)

page_vpn-mod : (i : ℕ) → i < 32 → page_vpn i % page_table_size ≡ i
page_vpn-mod i li = ground (arith, li)

pub pte_elem-ne : (sup i j : ℕ) → i < j → j < 32 → (pte_elem sup i == pte_elem sup j) ≡ false
pte_elem-ne sup i j lt lj = ground (arith, lt, lj)

pub set_entries-only :
    (n : ℕ) (sup : Ptr) (s : Store)
    → set_entries n sup s ≡ record s {
      entry_hi = (set_entries n sup s).entry_hi;
      entry_lo = (set_entries n sup s).entry_lo;
    }
unfolding set_entries
set_entries-only zero sup s = refl
set_entries-only (suc n) sup s =
    let t = set_entries n sup s in
    ap
      (λ (r : Store). record r {
        entry_hi = upd t.entry_hi (pte_elem sup n) (user_entry_hi (t.sup_asid sup) n);
        entry_lo = upd t.entry_lo (pte_elem sup n) absent_lo;
      })
      (set_entries-only n sup s)

-- The entries below `n` are set.
pub set_entries-at :
    (n : ℕ) (sup : Ptr) (s : Store) (i : ℕ)
    → n ≤ 32
    → i < n
    → ((set_entries n sup s).entry_hi (pte_elem sup i) ≡ user_entry_hi (s.sup_asid sup) i)
      × ((set_entries n sup s).entry_lo (pte_elem sup i) ≡ absent_lo)
unfolding set_entries
set_entries-at zero sup s i le lt = absurd (omega arith)
set_entries-at (suc n) sup s i le lt = elim (Bool-cases (i == n)) [
  | inl e ↦
      let same : pte_elem sup i ≡ pte_elem sup n = ap (pte_elem sup) (eq_of_== i n e) in
      ground (
        arith,
        same,
        ap (user_entry_hi (s.sup_asid sup)) (eq_of_== i n e),
        ap (λ r. user_entry_hi (r.sup_asid sup) n) (set_entries-only n sup s),
      )
  | inr e ↦
      simp (pte_elem-ne sup i n (ground arith) (omega arith))
        (set_entries-at n sup s i (omega arith) (ground arith))
]

-- The page table of `sup` after `init_Uproc_pgTable`.
unfoldable pub filled : Ptr → Store → Store
filled sup s =
    let t = set_entries page_table_size sup s in
    record s {
      entry_hi = upd t.entry_hi (pte_elem sup 31) (stack_entry_hi (s.sup_asid sup));
      entry_lo = t.entry_lo;
    }

pub filled-at :
    (sup : Ptr) (s : Store) (i : ℕ)
    → i < 32
    → ((filled sup s).entry_hi (pte_elem sup i) ≡ wanted_hi (s.sup_asid sup) i)
      × ((filled sup s).entry_lo (pte_elem sup i) ≡ absent_lo)
unfolding filled
filled-at sup s i lt = elim (Bool-cases (i == 31)) [
  | inl e ↦
      let same : pte_elem sup i ≡ pte_elem sup 31 = ap (pte_elem sup) (eq_of_== i 31 e) in
      (ground (arith, same, e), (set_entries-at 32 sup s i (omega arith) lt).1)
  | inr e ↦
      let low : i < 31 = ground arith in
      (
        simp (pte_elem-ne sup i 31 low (omega arith), e)
            ((set_entries-at 32 sup s i (omega arith) lt).0),
        (set_entries-at 32 sup s i (omega arith) lt).1,
      )
]

pub init_uproc_pg_table-filled :
    (sup : Ptr) (s : Store) → init_uproc_pg_table sup s ≡ done tt (filled sup s)
unfolding init_uproc_pg_table filled
init_uproc_pg_table-filled sup s =
    let t = set_entries page_table_size sup s in
    ap
      (λ (r : Store). done tt (record r {
        entry_hi = upd t.entry_hi (pte_elem sup 31) (stack_entry_hi (r.sup_asid sup));
        entry_lo = t.entry_lo;
      }))
      (set_entries-only page_table_size sup s)

-- After `init_Uproc_pgTable` for an address space number below 64, a TLB refill for the page `i` of
-- the process writes the entry of that page to the TLB: its EntryHi names the page that was missing.
-- The refill returns to the saved state.
pub u_tlb_refill_handler-page :
    (s : Store) (sup : Ptr) (i : ℕ)
    → s.sup_asid sup < 64
    → s.current_support ≡ sup
    → i < page_table_size
    → missing_vpn s.bios.s_entry_hi ≡ page_vpn i
    → After
        (λ _ _. ⊥)
        (λ d s'.
          (d ≡ load_state s.bios)
          × (s'.tlb ≡ (wanted_hi (s.sup_asid sup) i, absent_lo) ∷ s.tlb)
          × (missing_vpn (wanted_hi (s.sup_asid sup) i) ≡ missing_vpn s.bios.s_entry_hi))
        ((init_uproc_pg_table sup >> u_tlb_refill_handler) s)
unfolding u_tlb_refill_handler filled
u_tlb_refill_handler-page s sup i la cur li miss =
    let f = filled-at sup s i li in
    simp (init_uproc_pg_table-filled sup s, cur, miss, page_vpn-mod i li, f.0, f.1)
      (refl, refl, missing_vpn-wanted_hi (s.sup_asid sup) i la li)
