-- ===== src/Vm/Fault/Served.antt =====
-- The pager (phase3/vmSupport.c) serves a page fault and keeps frames and page tables in agreement.
use operating_system_cs.Base.{
  ℕ, ◌<◌, ◌≡◌, ◌≢◌, sym, ap, ◌∙◌, false, ◌==◌, Bool-cases, inl, inr, eq_of_==, ==-refl, refl, List,
  ==-of_ne, upd-other,
}
use mathlib.Core.Path.{subst}
use operating_system_cs.Ring.{Ptr, null}
use operating_system_cs.Kernel.Run.{ne_null}
use operating_system_cs.Kernel.Const.{pgfaultexcept}
use operating_system_cs.Support.{Store}
use operating_system_cs.Support.Const.{
  minus_one, swap_pool_size, writeblk_dsk, readblk_dsk, pte_elem,
}
use operating_system_cs.Support.Code.{Nucleus, Action, get, skip, done, ◌>>=◌, ◌>>◌}
use operating_system_cs.Support.Machine.{slt}
use operating_system_cs.Support.Logic.{
  Finishes, finished, Finishes-Finished, Finishes-bind, Finishes-mono,
}
use operating_system_cs.Vm.{missing_vpn, page_replace}
use operating_system_cs.Vm.Disk.{
  frame_addr, disk_for_pager, write_to_disk_for_pager, read_from_disk_for_pager,
}
use operating_system_cs.Vm.Geometry.{disk_size}
use operating_system_cs.Vm.Replace.{ne_of_==, IsChoice, page_replace-IsChoice}
use operating_system_cs.Vm.Fault.{evict, install, bring_in, table_index, backing_sector}
use operating_system_cs.Vm.Fault.Rely.{
  dimensions, Same, Same-refl, Same-trans, Quiet, disk_for_pager-Keeps,
}
use operating_system_cs.Vm.Fault.Mapped.{
  IsMapped, IsVacant, Same-IsVacant, Evicted, Evicted-IsVacant,
}
use operating_system_cs.Vm.Fault.Trace.{WrittenBack, IsServed}
use operating_system_cs.Vm.Fault.Install.{
  without, without-Same, absent_later, installed, install-installed, Holds, installed-Holds,
  installed-IsMapped,
}

-- The page that the process missed.
abbrev pub faulting : Store → Ptr → ℕ
faulting s sup = missing_vpn (s.sup_except_state sup pgfaultexcept).s_entry_hi

-- `Trace op sector buffer dims out out'` says what an operation on the disk adds to what was moved.
module _ (nucleus : Nucleus) (sup : Ptr)
    (Trace : (op sector buffer dims : ℕ) → (out out' : List ℕ) → Type 0)
    (on_disk : (op sector buffer : ℕ) (s : Store)
      → slt (disk_size (dimensions s)) sector ≡ false
      → Finishes
          (λ _ s'. Same sup s s' × Trace op sector buffer (dimensions s) s.moves s'.moves)
          (disk_for_pager nucleus op 0 sector buffer sup s)) where
  -- `evict` returns, and then no valid entry stands in the frame.
  evict-Evicted :
      (i : ℕ) (s : Store)
      → IsMapped s
      → i < swap_pool_size
      → Finishes
          (λ _ s'. Same sup s s' × (Evicted s i s' × WrittenBack Trace s i s'.moves))
          (evict nucleus i sup s)
  unfolding evict without write_to_disk_for_pager
  evict-Evicted i s m lt = elim (Bool-cases (s.asid i == minus_one)) [
    | inl e ↦
        simp e (Same-refl sup s, (λ n. absurd (n (eq_of_== _ _ e)), inl (eq_of_== _ _ e, refl)))
    | inr e ↦
        let occ = ne_of_== (s.asid i) minus_one e in
        let d = s.matching_pg_table_entry i in
        simp (e, ne_null d (m.pool.has_entry i lt occ), ==-refl d)
          (Finishes-bind
            (λ _ s'.
              Same sup (without s d) s'
              × Trace writeblk_dsk (backing_sector (s.asid i) (table_index (s.vpn i)))
                  (frame_addr i) (dimensions s) s.moves s'.moves)
            (λ _ s'. Same sup s s' × (Evicted s i s' × WrittenBack Trace s i s'.moves)) _
            (λ _. skip)
            (on_disk writeblk_dsk (backing_sector (s.asid i) (table_index (s.vpn i))) (frame_addr i)
              (without s d) (m.pool.has_sector i lt occ))
            (λ _ s' h. (
              Same-trans sup s (without s d) s' (without-Same sup s d) h.0,
              (λ _. absent_later sup s s' d h.0, inr (occ, h.1)),
            )))
  ]

  -- The steps of `bring_in` behind the choice of the frame `i`.
  refill : (i vpn : ℕ) → Action
  refill i vpn = do
    evict nucleus i sup
    a ← get (λ s. s.sup_asid sup)
    disk_for_pager nucleus readblk_dsk 0 (backing_sector a (table_index vpn)) (frame_addr i) sup
    install i vpn sup

  -- The last two steps.
  load-Holds :
      (i vpn : ℕ) (s t : Store)
      → IsVacant t i
      → Same sup s t
      → i < swap_pool_size
      → s.sup_asid sup ≢ minus_one
      → pte_elem sup (table_index vpn) ≢ null
      → slt (disk_size (dimensions s)) (backing_sector (s.sup_asid sup) (table_index vpn)) ≡ false
      → IsMapped (installed t sup i vpn) × Holds (installed t sup i vpn) sup (s.sup_asid sup) vpn i
  load-Holds i vpn s t vac h lt user table fits =
      let user' : t.sup_asid sup ≢ minus_one = λ n. user (sym h.own_asid ∙ n) in
      let fits' : slt (disk_size (dimensions t)) (backing_sector (t.sup_asid sup) (table_index vpn))
          ≡ false =
        ap (λ d. slt (disk_size d) (backing_sector (t.sup_asid sup) (table_index vpn))) h.geometry
        ∙ (ap (λ a. slt (disk_size (dimensions s)) (backing_sector a (table_index vpn))) h.own_asid
            ∙ fits) in
      (
        installed-IsMapped t sup i vpn vac lt user' table fits',
        subst (λ a. Holds (installed t sup i vpn) sup a vpn i) h.own_asid
            (installed-Holds t sup i vpn vac lt user' table fits'),
      )

  -- The last two steps leave the other frames.
  installed_others :
      (i vpn j : ℕ) (s t : Store)
      → Same sup s t
      → j ≢ i
      → ((installed t sup i vpn).asid j ≡ s.asid j) × ((installed t sup i vpn).vpn j ≡ s.vpn j)
  unfolding installed
  installed_others i vpn j s t h ne =
      let apart : (j == i) ≡ false = ==-of_ne j i ne in
      (
        upd-other t.asid i j (t.sup_asid sup) apart ∙ ap (λ f. f j) h.asid,
        upd-other t.vpn i j vpn apart ∙ ap (λ f. f j) h.vpn,
      )

  refill-IsServed :
      (i vpn : ℕ) (s : Store)
      → IsMapped s
      → i < swap_pool_size
      → s.sup_asid sup ≢ minus_one
      → pte_elem sup (table_index vpn) ≢ null
      → slt (disk_size (dimensions s)) (backing_sector (s.sup_asid sup) (table_index vpn)) ≡ false
      → Finishes (λ _ s'. IsServed Trace sup vpn s s' i) (refill i vpn s)
  unfolding refill installed
  refill-IsServed i vpn s m lt user table fits =
      elim (Finishes-Finished
        (λ _ s'. Same sup s s' × (Evicted s i s' × WrittenBack Trace s i s'.moves))
        (evict nucleus i sup s) (evict-Evicted i s m lt)) [
          | finished u t runs h ↦
              let sector = backing_sector (t.sup_asid sup) (table_index vpn) in
              let fits' : slt (disk_size (dimensions t)) sector ≡ false =
                ap (λ d. slt (disk_size d) sector) h.0.geometry
                ∙ (ap (λ a. slt (disk_size (dimensions s)) (backing_sector a (table_index vpn)))
                      h.0.own_asid
                    ∙ fits) in
              elim (Finishes-Finished
                (λ _ s'.
                  Same sup t s'
                  × Trace readblk_dsk sector (frame_addr i) (dimensions t) t.moves s'.moves)
                (disk_for_pager nucleus readblk_dsk 0 sector (frame_addr i) sup t)
                (on_disk readblk_dsk sector (frame_addr i) t fits')) [
                  | finished v t2 runs2 h2 ↦
                      let vac =
                        Same-IsVacant sup t t2 i h2.0 (Evicted-IsVacant sup s t i m h.0 h.1.0) in
                      let all = Same-trans sup s t t2 h.0 h2.0 in
                      let r = load-Holds i vpn s t2 vac all lt user table fits in
                      simp (runs, runs2, install-installed t2 sup i vpn)
                        (record {
                          is_mapped = r.0;
                          holds = r.1;
                          others = λ j ne. installed_others i vpn j s t2 all ne;
                          written = t.moves;
                          back = h.1.1;
                          loaded =
                              subst
                                (λ a.
                                  Trace readblk_dsk (backing_sector a (table_index vpn))
                                    (frame_addr i) (dimensions s) t.moves t2.moves)
                                h.0.own_asid
                                (subst
                                  (λ d. Trace readblk_dsk sector (frame_addr i) d t.moves t2.moves)
                                  h.0.geometry h2.1);
                        })
                ]
        ]

  -- A page fault with the swap pool's semaphore held.
  pub bring_in-IsServed :
      (s : Store)
      → IsMapped s
      → s.sup_asid sup ≢ minus_one
      → pte_elem sup (table_index (faulting s sup)) ≢ null
      → slt
          (disk_size (dimensions s))
          (backing_sector (s.sup_asid sup) (table_index (faulting s sup)))
        ≡ false
      → Finishes
          (λ _ s'. (i : ℕ) × IsServed Trace sup (faulting s sup) s s' i)
          (bring_in nucleus sup s)
  unfolding bring_in read_from_disk_for_pager refill
  bring_in-IsServed s m user table fits =
      elim (Finishes-Finished (IsChoice s) (page_replace s)
        (page_replace-IsChoice s m.pool.next_in_pool)) [
          | finished i s1 runs c ↦
              let s2 : Store = record s { next_frame = s1.next_frame } in
              let m2 : IsMapped s2 = record {
                pool = record {
                  next_in_pool = c.next_in_pool;
                  has_entry = m.pool.has_entry;
                  has_sector = m.pool.has_sector;
                };
                mapped = m.mapped;
              } in
              simp (runs ∙ ap (done i) c.only) (
                Finishes-mono (λ _ s'. IsServed Trace sup (faulting s sup) s2 s' i)
                  (λ _ s'. (x : ℕ) × IsServed Trace sup (faulting s sup) s s' x)
                  (refill i (faulting s sup) s2)
                  (refill-IsServed i (faulting s sup) s2 m2 c.in_pool user table fits)
                  (λ _ s' r. (
                    i,
                    record {
                      is_mapped = r.is_mapped;
                      holds = r.holds;
                      others = r.others;
                      written = r.written;
                      back = r.back;
                      loaded = r.loaded;
                    },
                  )))
        ]

-- Whatever the disk answers, the fault is served.
pub bring_in-Holds :
    (nucleus : Nucleus) (sup : Ptr)
    → Quiet nucleus sup
    → (s : Store) → IsMapped s
    → s.sup_asid sup ≢ minus_one
    → pte_elem sup (table_index (faulting s sup)) ≢ null
    → slt
        (disk_size (dimensions s))
        (backing_sector (s.sup_asid sup) (table_index (faulting s sup)))
      ≡ false
    → Finishes
        (λ _ s'. IsMapped s' × ((i : ℕ) × Holds s' sup (s.sup_asid sup) (faulting s sup) i))
        (bring_in nucleus sup s)
bring_in-Holds nucleus sup quiet s m user table fits =
    Finishes-mono _ _ (bring_in nucleus sup s)
      (bring_in-IsServed nucleus sup (λ _ _ _ _ _ _. Unit {0})
        (λ op sector buffer t f.
          Finishes-mono (λ _ s'. Same sup t s') (λ _ s'. Same sup t s' × Unit {0})
            (disk_for_pager nucleus op 0 sector buffer sup t)
            (disk_for_pager-Keeps nucleus sup quiet op sector buffer t f) (λ _ s' h. (h, tt)))
        s m user table fits)
      (λ _ s' r. (r.1.is_mapped, (r.0, r.1.holds)))
