-- ===== src/Vm/Fault/Trace.antt =====
-- What a served page fault (phase3/vmSupport.c) leaves, and what it moves between the frames and the
-- backing store.
use operating_system_cs.Base.{ℕ, ◌≡◌, ◌≢◌, ◌⊎◌, List}
use operating_system_cs.Ring.{Ptr}
use operating_system_cs.Support.{Store}
use operating_system_cs.Support.Const.{minus_one, writeblk_dsk, readblk_dsk}
use operating_system_cs.Vm.Disk.{frame_addr}
use operating_system_cs.Vm.Fault.{table_index, backing_sector}
use operating_system_cs.Vm.Fault.Rely.{dimensions}
use operating_system_cs.Vm.Fault.Mapped.{IsMapped}
use operating_system_cs.Vm.Fault.Install.{Holds}

-- `Trace op sector buffer dims out out'` says that an operation on a disk turned the list of what was
-- moved from `out` to `out'`.
module _ (Trace : (op sector buffer dims : ℕ) → (out out' : List ℕ) → Type 0) where
  -- The page that stood in the frame `i`, if there was one, is written to its sector.
  abbrev pub WrittenBack : Store → ℕ → List ℕ → Type 0
  WrittenBack s i out =
      ((s.asid i ≡ minus_one) × (out ≡ s.moves))
      ⊎ ((s.asid i ≢ minus_one)
          × Trace writeblk_dsk (backing_sector (s.asid i) (table_index (s.vpn i))) (frame_addr i)
              (dimensions s) s.moves out)

  -- The page `vpn` of `sup` was read from its sector to the frame `i`, behind that, and the frame is
  -- its own; the other frames are as they were.
  pub record IsServed (sup : Ptr) (vpn : ℕ) (s s' : Store) (i : ℕ) : Type 0 where
    pub is_mapped : IsMapped s'
    pub holds : Holds s' sup (s.sup_asid sup) vpn i
    pub others : (j : ℕ) → j ≢ i → (s'.asid j ≡ s.asid j) × (s'.vpn j ≡ s.vpn j)
    pub written : List ℕ
    pub back : WrittenBack s i written
    pub loaded :
        Trace readblk_dsk
          (backing_sector (s.sup_asid sup) (table_index vpn))
          (frame_addr i)
          (dimensions s)
          written
          s'.moves
