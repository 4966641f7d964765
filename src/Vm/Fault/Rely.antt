-- ===== src/Vm/Fault/Rely.antt =====
-- What the pager (phase3/vmSupport.c) may rely on while it holds the swap pool's semaphore, and that its
-- disk operations return within it.
use operating_system_cs.Base.{
  ℕ, ◌≡◌, ◌∷◌, refl, ap, sym, true, false, ◌∙◌, ◌⊎◌, inl, inr, ◌==◌, if◌then◌else◌, bit_and, bit_or,
  sub32, not, upd, Bool,
}
use operating_system_cs.Ring.{Ptr}
use operating_system_cs.Kernel.Const.{dev_addr_base, int_elem}
use operating_system_cs.Support.{Call, Store}
use operating_system_cs.Support.Const.{
  d_data1, d_command, d_data0, diskint, vbiton, iecbiton, iecbitoff, ready,
}
use operating_system_cs.Support.Code.{
  Nucleus, Answer, back, gone, Code, Out, pure, syscall, answered, ◌>>=◌, ◌>>◌,
}
use operating_system_cs.Support.Machine.{slt, iowait, passern, verho, set_cell, interrupts_on}
use operating_system_cs.Support.Logic.{Finishes, Finishes-mono, Finishes-bind}
use operating_system_cs.Vm.Geometry.{Chs, disk_size, maxhead, maxsect, pager_chs}
use operating_system_cs.Vm.Disk.{
  start_device, transfer_block, disk_for_pager, seek_command, block_command, signed_status,
}

-- The V bit of EntryLo.
abbrev pub is_valid : ℕ → Bool
is_valid lo = bit_and lo vbiton == vbiton

-- The register of disk 0 that holds its geometry.
abbrev pub dimensions : Store → ℕ
dimensions s = s.words (d_data1 (dev_addr_base diskint 0))

-- The swap pool, the geometry of the disk and the process' own identity stay, and no page table entry
-- becomes valid or moves.
pub record Same (sup : Ptr) (s s' : Store) : Type 0 where
  pub asid : s'.asid ≡ s.asid
  pub vpn : s'.vpn ≡ s.vpn
  pub entry : s'.matching_pg_table_entry ≡ s.matching_pg_table_entry
  pub next : s'.next_frame ≡ s.next_frame
  pub own_asid : s'.sup_asid sup ≡ s.sup_asid sup
  pub geometry : dimensions s' ≡ dimensions s
  pub valid : (e : Ptr) → is_valid (s'.entry_lo e) ≡ true → s'.entry_lo e ≡ s.entry_lo e

pub Same-refl : (sup : Ptr) (s : Store) → Same sup s s
Same-refl sup s = record {
  asid = refl;
  vpn = refl;
  entry = refl;
  next = refl;
  own_asid = refl;
  geometry = refl;
  valid = λ e v. refl;
}

pub Same-trans : (sup : Ptr) (s t u : Store) → Same sup s t → Same sup t u → Same sup s u
Same-trans sup s t u a b = record {
  asid = b.asid ∙ a.asid;
  vpn = b.vpn ∙ a.vpn;
  entry = b.entry ∙ a.entry;
  next = b.next ∙ a.next;
  own_asid = b.own_asid ∙ a.own_asid;
  geometry = b.geometry ∙ a.geometry;
  valid = λ e v. b.valid e v ∙ a.valid e (ap is_valid (sym (b.valid e v)) ∙ v);
}

abbrev pub Quietly : Ptr → Store → Answer → Type 0
Quietly sup s (back v s') = Same sup s s'
Quietly sup s (gone s') = ⊥

-- SYS3, SYS4 and SYS5 of a process that holds the semaphore return, and other processes leave alone
-- what it protects.
abbrev pub Quiet : Nucleus → Ptr → Type 0
Quiet nucleus sup =
    (c : Call) (s : Store)
    → (c.number ≡ 3) ⊎ ((c.number ≡ 4) ⊎ (c.number ≡ 5))
    → Quietly sup s (nucleus c s)

answered-Same :
    (sup : Ptr) (s : Store) (a : Answer)
    → Quietly sup s a
    → Finishes (λ _ s'. Same sup s s') (answered a)
answered-Same sup s (back v s') h = h
answered-Same sup s (gone s') h = absurd h

module _ (nucleus : Nucleus) (sup : Ptr) (quiet : Quiet nucleus sup) where
  -- The command returns and keeps what is protected.
  abbrev pub Keeps : {A : Type 0} → Code A → Type 0
  Keeps m = (s : Store) → Finishes (λ _ s'. Same sup s s') (m s)

  pub call-Keeps : (n x y z : ℕ) → (n ≡ 3) ⊎ ((n ≡ 4) ⊎ (n ≡ 5)) → Keeps (syscall nucleus n x y z)
  call-Keeps n x y z h s =
      let c : Call = record { number = n; arg1 = x; arg2 = y; arg3 = z } in
      let t : Store = record s { calls = c ∷ s.calls } in
      Finishes-mono (λ _ s'. Same sup t s') (λ _ s'. Same sup s s') (answered (nucleus c t))
        (answered-Same sup t (nucleus c t) (quiet c t h))
        (λ v s' same. record {
          asid = same.asid;
          vpn = same.vpn;
          entry = same.entry;
          next = same.next;
          own_asid = same.own_asid;
          geometry = same.geometry;
          valid = same.valid;
        })

  put-Same :
      {A : Type 0} (s t : Store) (m : Out A)
      → Same sup s t
      → Finishes (λ _ s'. Same sup t s') m
      → Finishes (λ _ s'. Same sup s s') m
  put-Same s t m h f =
      Finishes-mono (λ _ s'. Same sup t s') (λ _ s'. Same sup s s') m f
        (λ _ s' g. Same-trans sup s t s' h g)

  bind-Keeps :
      {A B : Type 0} (m : Code A) (f : A → Code B)
      → Keeps m
      → ((a : A) → Keeps (f a))
      → Keeps (m >>= f)
  bind-Keeps m f h g s =
      Finishes-bind (λ _ s'. Same sup s s') (λ _ s'. Same sup s s') (m s) f (h s)
        (λ a t same. put-Same s t (f a t) same (g a t))

  -- Assignments to other cells, and to the status register.
  pub cells-Same :
      (s : Store) (w : Ptr → ℕ) (x : ℕ)
      → w (d_data1 (dev_addr_base diskint 0)) ≡ dimensions s
      → Same sup s (record s { words = w; status = x })
  cells-Same s w x e = record {
    asid = refl;
    vpn = refl;
    entry = refl;
    next = refl;
    own_asid = refl;
    geometry = e;
    valid = λ e v. refl;
  }

  -- A command to disk 0 and the wait for it.
  start_device-Keeps :
      (command : ℕ)
      → Keeps (start_device nucleus diskint 0 (d_command (dev_addr_base diskint 0)) command)
  unfolding start_device
  start_device-Keeps command s =
      let w = upd s.words (d_command (dev_addr_base diskint 0)) command in
      let t : Store = record s { words = w; status = bit_and s.status iecbitoff } in
      put-Same s t (start_device nucleus diskint 0 (d_command (dev_addr_base diskint 0)) command s)
        (cells-Same s w (bit_and s.status iecbitoff) refl)
        (bind-Keeps (iowait nucleus diskint 0 0) (λ st. interrupts_on >> pure st)
          (call-Keeps 5 diskint 0 0 (inr (inr refl)))
          (λ st u. cells-Same u u.words (bit_or u.status iecbiton) refl) t)

  transfer_block-Keeps :
      (op : ℕ) (at : Chs) (buffer m : Ptr)
      → Keeps (transfer_block nucleus op 0 at buffer (dev_addr_base diskint 0) m)
  unfolding transfer_block
  transfer_block-Keeps op at buffer m =
      bind-Keeps (start_device nucleus diskint 0 (d_command reg) (seek_command at.cyl_no)) _
        (start_device-Keeps (seek_command at.cyl_no)) (λ seek. by_status seek (not (seek == ready)))
    where
      reg : Ptr
      reg = dev_addr_base diskint 0

      finish : (v : ℕ) → Keeps (verho nucleus m >> pure v)
      finish v =
          bind-Keeps (verho nucleus m) (λ _. pure v) (call-Keeps 4 m 0 0 (inr (inl refl)))
            (λ _ s. Same-refl sup s)

      by_status :
          (seek : ℕ) (failed : Bool)
          → Keeps (
              if failed then (verho nucleus m >> pure (sub32 0 seek)) else (do
                set_cell (d_data0 reg) buffer
                st ←
                    start_device nucleus diskint 0
                      (d_command reg)
                      (block_command at.head_no at.sect_no op)
                verho nucleus m
                pure (signed_status st)))
      by_status seek true = finish (sub32 0 seek)
      by_status seek false =
          bind-Keeps (set_cell (d_data0 reg) buffer) _
            (λ s. cells-Same s (upd s.words (d_data0 reg) buffer) s.status refl)
            (λ _.
              bind-Keeps
                (start_device nucleus diskint 0 (d_command reg)
                  (block_command at.head_no at.sect_no op))
                (λ st. verho nucleus m >> pure (signed_status st))
                (start_device-Keeps (block_command at.head_no at.sect_no op))
                (λ st. finish (signed_status st)))

  -- A pager operation on a sector that disk 0 has.
  pub disk_for_pager-Keeps :
      (op sector buffer : ℕ) (s : Store)
      → slt (disk_size (dimensions s)) sector ≡ false
      → Finishes (λ _ s'. Same sup s s') (disk_for_pager nucleus op 0 sector buffer sup s)
  unfolding disk_for_pager
  disk_for_pager-Keeps op sector buffer s fits =
      let dim = dimensions s in
      let m = int_elem s.statics.mutex 0 in
      let body = λ (_ : ℕ).
        transfer_block nucleus op 0 (pager_chs (maxhead dim) (maxsect dim) sector) buffer
          (dev_addr_base diskint 0) m in
      simp fits (
        bind-Keeps (passern nucleus m) body (call-Keeps 3 m 0 0 (inl refl))
          (λ _. transfer_block-Keeps op (pager_chs (maxhead dim) (maxsect dim) sector) buffer m) s)
