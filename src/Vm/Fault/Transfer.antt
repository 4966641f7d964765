-- ===== src/Vm/Fault/Transfer.antt =====
-- The pager (phase3/vmSupport.c) with a disk that answers READY: what it moves.
use operating_system_cs.Base.{
  ℕ, ◌≡◌, ◌≢◌, ◌∷◌, List, refl, ap, ◌∙◌, ◌⊎◌, inl, inr, false, upd, bit_and, bit_or,
}
use operating_system_cs.Ring.{Ptr, null}
use operating_system_cs.Kernel.Const.{dev_addr_base, int_elem}
use operating_system_cs.Support.{Call, Store}
use operating_system_cs.Support.Const.{
  minus_one, pte_elem, d_command, d_data0, d_data1, diskint, ready, iecbitoff, iecbiton,
}
use operating_system_cs.Support.Code.{
  Nucleus, Answer, back, gone, pure, syscall, answered, after, ◌>>◌,
}
use operating_system_cs.Support.Machine.{slt, interrupts_on, verho}
use operating_system_cs.Support.Logic.{Finishes, Finishes-mono, Finishes-Finished, finished}
use operating_system_cs.Vm.Geometry.{Chs, disk_size, maxhead, maxsect, pager_chs}
use operating_system_cs.Vm.Disk.{
  start_device, transfer_block, disk_for_pager, seek_command, block_command,
}
use operating_system_cs.Vm.Fault.{bring_in, table_index, backing_sector}
use operating_system_cs.Vm.Fault.Rely.{dimensions, Same, Same-trans}
use operating_system_cs.Vm.Fault.Mapped.{IsMapped}
use operating_system_cs.Vm.Fault.Trace.{IsServed}
use operating_system_cs.Vm.Fault.Served.{faulting, bring_in-IsServed}

-- The registers of disk 0.
abbrev disk_reg : Ptr
disk_reg = dev_addr_base diskint 0

abbrev pub MovesNothing : Ptr → Store → Answer → Type 0
MovesNothing sup s (back v s') = Same sup s s' × (s'.moves ≡ s.moves)
MovesNothing sup s (gone s') = ⊥

abbrev pub MovesReady : Ptr → Store → List ℕ → Answer → Type 0
MovesReady sup s out (back v s') = (v ≡ ready) × (Same sup s s' × (s'.moves ≡ out))
MovesReady sup s out (gone s') = ⊥

-- SYS3 and SYS4 return, SYS5 on disk 0 performs the command in its registers and returns READY, and
-- while the process holds the swap pool's semaphore the others leave alone what it protects, and the
-- disk.
pub record Disk (nucleus : Nucleus) (sup : Ptr) : Type 0 where
  pub mutex :
      (c : Call) (s : Store) → (c.number ≡ 3) ⊎ (c.number ≡ 4) → MovesNothing sup s (nucleus c s)
  pub perform :
      (c : Call) (s : Store)
      → c ≡ record { number = 5; arg1 = diskint; arg2 = 0; arg3 = 0 }
      → MovesReady sup s
          (s.words (d_data0 disk_reg) ∷ s.words (d_command disk_reg) ∷ s.moves)
          (nucleus c s)

-- A seek to the cylinder of the sector, and the block command `op` on its head and sector with the
-- buffer at `buffer`. `x` is what the register for the buffer holds at the seek.
abbrev pub moved : (op sector buffer dims x : ℕ) → List ℕ → List ℕ
moved op sector buffer dims x out =
    let at : Chs = pager_chs (maxhead dims) (maxsect dims) sector in
    buffer ∷ block_command at.head_no at.sect_no op ∷ x ∷ seek_command at.cyl_no ∷ out

abbrev pub Moved : (op sector buffer dims : ℕ) → (out out' : List ℕ) → Type 0
Moved op sector buffer dims out out' = (x : ℕ) × (out' ≡ moved op sector buffer dims x out)

-- Commands, the status register and calls are not protected, and not in the way.
registers-Same :
    (sup : Ptr) (s : Store) (w : Ptr → ℕ) (x : ℕ) (cs : List Call)
    → w (d_data1 disk_reg) ≡ dimensions s
    → Same sup s (record s { words = w; status = x; calls = cs })
registers-Same sup s w x cs e = record {
  asid = refl;
  vpn = refl;
  entry = refl;
  next = refl;
  own_asid = refl;
  geometry = e;
  valid = λ d v. refl;
}

answered-moves :
    (sup : Ptr) (s k : Store) (out : List ℕ) (a : Answer)
    → Same sup s k
    → MovesReady sup k out a
    → Finishes
        (λ st s'. (st ≡ ready) × (Same sup s s' × (s'.moves ≡ out)))
        (after (answered a) (λ st. interrupts_on >> pure st))
answered-moves sup s k out (back v u) same h = (
  h.0,
  (
    Same-trans sup s k _ same (
        Same-trans sup k u _ h.1.0
          (registers-Same sup u u.words (bit_or u.status iecbiton) u.calls refl)),
    h.1.1,
  ),
)
answered-moves sup s k out (gone u) same h = absurd h

mutex-moves :
    (sup : Ptr) (s k : Store) (a : Answer)
    → Same sup s k
    → k.moves ≡ s.moves
    → MovesNothing sup k a
    → Finishes (λ _ s'. Same sup s s' × (s'.moves ≡ s.moves)) (answered a)
mutex-moves sup s k (back v u) same e h = (Same-trans sup s k u same h.0, h.1 ∙ e)
mutex-moves sup s k (gone u) same e h = absurd h

module _ (nucleus : Nucleus) (sup : Ptr) (disk : Disk nucleus sup) where
  start_device-moves :
      (command : ℕ) (s : Store)
      → Finishes
          (λ st s'.
            (st ≡ ready)
            × (Same sup s s' × (s'.moves ≡ s.words (d_data0 disk_reg) ∷ command ∷ s.moves)))
          (start_device nucleus diskint 0 (d_command disk_reg) command s)
  unfolding start_device
  start_device-moves command s =
      let w = upd s.words (d_command disk_reg) command in
      let c : Call = record { number = 5; arg1 = diskint; arg2 = 0; arg3 = 0 } in
      let k : Store = record s {
        words = w;
        status = bit_and s.status iecbitoff;
        calls = c ∷ s.calls;
      } in
      answered-moves sup s k (s.words (d_data0 disk_reg) ∷ command ∷ s.moves) (nucleus c k)
        (registers-Same sup s w (bit_and s.status iecbitoff) (c ∷ s.calls) refl)
        (disk.perform c k refl)

  mutex_call :
      (n m : ℕ) (s : Store)
      → (n ≡ 3) ⊎ (n ≡ 4)
      → Finishes (λ _ s'. Same sup s s' × (s'.moves ≡ s.moves)) (syscall nucleus n m 0 0 s)
  mutex_call n m s h =
      let c : Call = record { number = n; arg1 = m; arg2 = 0; arg3 = 0 } in
      let k : Store = record s { calls = c ∷ s.calls } in
      mutex-moves sup s k (nucleus c k) (registers-Same sup s s.words s.status (c ∷ s.calls) refl)
        refl (disk.mutex c k h)

  transfer_block-Moved :
      (op sector buffer dims m : ℕ) (s : Store)
      → Finishes
          (λ _ s'. Same sup s s' × Moved op sector buffer dims s.moves s'.moves)
          (transfer_block nucleus op 0
            (pager_chs (maxhead dims) (maxsect dims) sector)
            buffer
            disk_reg
            m
            s)
  unfolding transfer_block
  transfer_block-Moved op sector buffer dims m s =
      let at : Chs = pager_chs (maxhead dims) (maxsect dims) sector in
      let block = block_command at.head_no at.sect_no op in
      elim (Finishes-Finished
        (λ st s'.
          (st ≡ ready)
          × (Same sup s s'
              × (s'.moves ≡ s.words (d_data0 disk_reg) ∷ seek_command at.cyl_no ∷ s.moves)))
        (start_device nucleus diskint 0 (d_command disk_reg) (seek_command at.cyl_no) s)
        (start_device-moves (seek_command at.cyl_no) s)) [
          | finished st s1 r1 h1 ↦
              let s2 : Store = record s1 { words = upd s1.words (d_data0 disk_reg) buffer } in
              elim (Finishes-Finished
                (λ st s'.
                  (st ≡ ready)
                  × (Same sup s2 s' × (s'.moves ≡ s2.words (d_data0 disk_reg) ∷ block ∷ s2.moves)))
                (start_device nucleus diskint 0 (d_command disk_reg) block s2)
                (start_device-moves block s2)) [
                  | finished st2 s3 r3 h3 ↦
                      elim (Finishes-Finished (λ _ s'. Same sup s3 s' × (s'.moves ≡ s3.moves))
                        (verho nucleus m s3) (mutex_call 4 m s3 (inr refl))) [
                          | finished v s4 r4 h4 ↦
                              simp (r1, h1.0, r3, r4)
                                (
                                  Same-trans sup s s1 s4 h1.1.0 (
                                      Same-trans sup s1 s2 s4
                                        (registers-Same sup s1 s2.words s1.status s1.calls refl)
                                        (Same-trans sup s2 s3 s4 h3.1.0 h4.0)),
                                  (
                                    s.words (d_data0 disk_reg),
                                    h4.1 ∙ (h3.1.1 ∙ ap (λ l. buffer ∷ block ∷ l) h1.1.1),
                                  ),
                                )
                        ]
                ]
        ]

  disk_for_pager-Moved :
      (op sector buffer : ℕ) (s : Store)
      → slt (disk_size (dimensions s)) sector ≡ false
      → Finishes
          (λ _ s'. Same sup s s' × Moved op sector buffer (dimensions s) s.moves s'.moves)
          (disk_for_pager nucleus op 0 sector buffer sup s)
  unfolding disk_for_pager
  disk_for_pager-Moved op sector buffer s fits =
      let m = int_elem s.statics.mutex 0 in
      elim (Finishes-Finished (λ _ s'. Same sup s s' × (s'.moves ≡ s.moves))
        (syscall nucleus 3 m 0 0 s) (mutex_call 3 m s (inl refl))) [
          | finished v s1 r1 h1 ↦
              simp (fits, r1)
                (Finishes-mono
                  (λ _ s'. Same sup s1 s' × Moved op sector buffer (dimensions s) s1.moves s'.moves)
                  (λ _ s'. Same sup s s' × Moved op sector buffer (dimensions s) s.moves s'.moves) _
                  (transfer_block-Moved op sector buffer (dimensions s) m s1)
                  (λ _ s' h. (
                    Same-trans sup s s1 s' h1.0 h.0,
                    (h.1.0, h.1.1 ∙ ap (moved op sector buffer (dimensions s) h.1.0) h1.1),
                  )))
        ]

-- With the swap pool's semaphore held and a disk 0 that answers READY, a page fault of a process on a
-- page with a place in its page table and on the disk is served: `bring_in` returns, and for some
-- frame the disk has written the page that stood in it to that page's sector, if one stood there, and
-- then read the missing page from its sector into the frame, each by a seek and a block command and
-- nothing else. The frame and the process' page table entry name each other, other frames stay, and
-- again each valid page table entry, of any process, stands in the one frame that names it. SYS3 and
-- SYS4 return, and meanwhile other processes change neither the swap pool nor make entries valid, and
-- do not use the disk.
pub bring_in-moves :
    (nucleus : Nucleus) (sup : Ptr) (s : Store)
    → Disk nucleus sup
    → IsMapped s
    → s.sup_asid sup ≢ minus_one
    → pte_elem sup (table_index (faulting s sup)) ≢ null
    → slt
        (disk_size (dimensions s))
        (backing_sector (s.sup_asid sup) (table_index (faulting s sup)))
      ≡ false
    → Finishes
        (λ _ s'. (i : ℕ) × IsServed Moved sup (faulting s sup) s s' i)
        (bring_in nucleus sup s)
bring_in-moves nucleus sup s disk m user table fits =
    bring_in-IsServed nucleus sup Moved (disk_for_pager-Moved nucleus sup disk) s m user table fits
