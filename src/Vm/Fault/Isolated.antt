-- ===== src/Vm/Fault/Isolated.antt =====
-- No two pages share a frame, in any state that page faults (phase3/vmSupport.c) reach from the start.
use operating_system_cs.Base.{
  ℕ, zero, suc, ◌+◌, ◌/◌, ◌<◌, ◌≡◌, ◌≢◌, refl, sym, ap, ◌∙◌, true, false, arith, ◌==◌, eq_of_==,
  Bool-cases, inl, inr, every_below, every_below-at,
}
use mathlib.Core.Path.{subst}
use operating_system_cs.Ring.{Ptr, null}
use operating_system_cs.Support.{Store}
use operating_system_cs.Support.Const.{minus_one, swap_pool_size, pte_elem}
use operating_system_cs.Support.Code.{Nucleus, done}
use operating_system_cs.Support.Machine.{slt}
use operating_system_cs.Support.Logic.{Finishes}
use operating_system_cs.Vm.{clear_frames, init_swap_struct}
use operating_system_cs.Vm.Geometry.{disk_size}
use operating_system_cs.Vm.Fault.{bring_in, table_index, backing_sector, present_lo}
use operating_system_cs.Vm.Fault.Rely.{is_valid, dimensions, Same, Quiet}
use operating_system_cs.Vm.Fault.Mapped.{IsMapped, Same-Pool, Same-InFrame, was_valid}
use operating_system_cs.Vm.Fault.Install.{Holds}
use operating_system_cs.Vm.Fault.Served.{faulting, bring_in-Holds}

clear_frames-asid : (n : ℕ) (s : Store) (i : ℕ) → i < n → (clear_frames n s).asid i ≡ minus_one
unfolding clear_frames
clear_frames-asid zero s i lt = absurd (omega arith)
clear_frames-asid (suc n) s i lt = elim (Bool-cases (i == n)) [
  | inl e ↦ ground (arith, e)
  | inr e ↦ ground (arith, e, clear_frames-asid n s i (ground arith))
]

clear_frames-others :
    (n : ℕ) (s : Store)
    → ((clear_frames n s).entry_lo ≡ s.entry_lo) × ((clear_frames n s).next_frame ≡ s.next_frame)
unfolding clear_frames
clear_frames-others zero s = (refl, refl)
clear_frames-others (suc n) s = clear_frames-others n s

-- No page is present yet.
abbrev pub NonePresent : Store → Type 0
NonePresent s = (e : Ptr) → is_valid (s.entry_lo e) ≡ false

pub init_swap_struct-IsMapped :
    (s : Store)
    → s.next_frame < swap_pool_size
    → NonePresent s
    → Finishes (λ _ s'. IsMapped s') (init_swap_struct s)
unfolding init_swap_struct
init_swap_struct-IsMapped s lt none = record {
  pool = record {
    next_in_pool =
        subst (λ n. n < swap_pool_size) (sym (clear_frames-others swap_pool_size s).1) lt;
    has_entry = λ i l occ. absurd (occ (clear_frames-asid swap_pool_size s i l));
    has_sector = λ i l occ. absurd (occ (clear_frames-asid swap_pool_size s i l));
  };
  mapped = λ e ok. absurd (
      ground
        (arith, ap (λ f. is_valid (f e)) (clear_frames-others swap_pool_size s).0, none e, ok));
}

-- One step: the swap pool is initialised, a page fault is served, or other code runs that leaves the
-- pool alone and makes no entry valid.
pub data Step (nucleus : Nucleus) (s s' : Store) : Type 0 where
  serve :
      (sup : Ptr)
      → Quiet nucleus sup
      → s.sup_asid sup ≢ minus_one
      → pte_elem sup (table_index (faulting s sup)) ≢ null
      → slt
          (disk_size (dimensions s))
          (backing_sector (s.sup_asid sup) (table_index (faulting s sup)))
        ≡ false
      → bring_in nucleus sup s ≡ done tt s'
      → Step nucleus s s'
  other : (sup : Ptr) → Same sup s s' → Step nucleus s s'

-- The states that follow the initialisation of the swap pool with no page present.
pub data Reach (nucleus : Nucleus) : Store → Type 0 where
  start :
      (s s' : Store)
      → s.next_frame < swap_pool_size
      → NonePresent s
      → init_swap_struct s ≡ done tt s'
      → Reach nucleus s'
  next : (s s' : Store) → Reach nucleus s → Step nucleus s s' → Reach nucleus s'

Step-IsMapped : (nucleus : Nucleus) (s s' : Store) → Step nucleus s s' → IsMapped s → IsMapped s'
Step-IsMapped nucleus s s' (serve sup quiet user table fits runs) m =
    (subst
      (λ o.
        Finishes (λ _ t. IsMapped t × ((i : ℕ) × Holds t sup (s.sup_asid sup) (faulting s sup) i))
          o)
      runs (bring_in-Holds nucleus sup quiet s m user table fits)).0
Step-IsMapped nucleus s s' (other sup same) m = record {
  pool = Same-Pool sup s s' same m.pool;
  mapped = λ e ok.
      let f = m.mapped e (was_valid sup s s' e same ok) in
      (f.0, Same-InFrame sup s s' e f.0 same ok f.1);
}

pub Reach-IsMapped : (nucleus : Nucleus) (s : Store) → Reach nucleus s → IsMapped s
Reach-IsMapped nucleus _ (start s0 s1 lt none runs) =
    subst (λ o. Finishes (λ _ t. IsMapped t) o) runs (init_swap_struct-IsMapped s0 lt none)
Reach-IsMapped nucleus _ (next s0 s1 r st) =
    Step-IsMapped nucleus s0 s1 st (Reach-IsMapped nucleus s0 r)

-- The number of the frame can be read off the entry.
present_lo-frame : (i : ℕ) → i < swap_pool_size → present_lo i / 4096 ≡ 131120 + i
unfolding every_below
present_lo-frame i lt =
    eq_of_== _ _ (every_below-at 32 (λ j. present_lo j / 4096 == 131120 + j) i refl lt)

-- In every state reached from the initialisation of the swap pool with no page present, by served page
-- faults and by other code that leaves the pool alone and makes no entry valid, two page table
-- entries that are valid, of one process or of two, map their pages to different frames.
pub Reach-isolated :
    (nucleus : Nucleus) (s : Store) (d e : Ptr)
    → Reach nucleus s
    → is_valid (s.entry_lo d) ≡ true
    → is_valid (s.entry_lo e) ≡ true
    → d ≢ e
    → s.entry_lo d / 4096 ≢ s.entry_lo e / 4096
Reach-isolated nucleus s d e r okd oke apart same =
    let m = Reach-IsMapped nucleus s r in
    let f = m.mapped d okd in
    let g = m.mapped e oke in
    let i : f.0 ≡ g.0 = ground (
      arith,
      ap (λ n. n / 4096) f.1.3,
      ap (λ n. n / 4096) g.1.3,
      present_lo-frame f.0 f.1.0,
      present_lo-frame g.0 g.1.0,
      same,
    ) in
    apart (sym f.1.2 ∙ (ap s.matching_pg_table_entry i ∙ g.1.2))
