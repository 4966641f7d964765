-- ===== src/Vm/Disk.antt =====
-- The operations of phase3/vmSupport.c on the backing store: `read_write_flash`,
-- `write_to_disk_for_pager` and `read_from_disk_for_pager`.
use operating_system_cs.Base.{ℕ, if◌then◌else◌, ◌==◌, not, add32, sub32, mul32, shl, bit_or}
use operating_system_cs.Ring.{Ptr, null}
use operating_system_cs.Kernel.Const.{dev_addr_base, pagesize}
use operating_system_cs.Support.Const.{
  d_command, d_data0, d_data1, diskint, flashint, ready, seekcyl, readblk_dsk, writeblk_dsk,
  readblk_flash, writeblk_flash, swap_pool_start,
}
use operating_system_cs.Support.Code.{Nucleus, Code, Action, pure, skip, get, ◌>>=◌, ◌>>◌}
use operating_system_cs.Support.Machine.{
  cell, set_cell, interrupts_off, interrupts_on, passern, verho, iowait, dev_mutex, slt,
}
use operating_system_cs.Uproc.{program_trap_handler}
use operating_system_cs.Vm.Geometry.{Chs, maxhead, maxsect, disk_size, pager_chs}

-- `SWAP_POOL_START + (frame * PAGESIZE)`
abbrev pub frame_addr : ℕ → ℕ
frame_addr i = add32 swap_pool_start (mul32 i pagesize)

-- `(cylNo << CYLNUM_SHIFT) + SEEKCYL`
abbrev pub seek_command : ℕ → ℕ
seek_command cyl = add32 (shl cyl 8) seekcyl

-- `(headNo << HEADNUM_SHIFT) + (sectNo << SECTNUM_SHIFT) + op`
abbrev pub block_command : (head sect op : ℕ) → ℕ
block_command head sect op = add32 (add32 (shl head 16) (shl sect 8)) op

-- The status as it is returned: negated when it is not READY.
abbrev pub signed_status : ℕ → ℕ
signed_status st = if st == ready then st else sub32 0 st

module _ (nucleus : Nucleus) where
  -- A command to a device and the wait for it, with interrupts off.
  unfoldable pub start_device : (line dev : ℕ) → Ptr → ℕ → Code ℕ
  start_device line dev reg command = do
    interrupts_off
    set_cell reg command
    st ← iowait nucleus line dev 0
    interrupts_on
    pure st

  -- The two pager operations behind the check, with the mutex `m` held: the command is the only
  -- difference.
  unfoldable pub transfer_block : (op dev : ℕ) → Chs → Ptr → Ptr → Ptr → Code ℕ
  transfer_block op dev at buffer reg m = do
    seek ← start_device diskint dev (d_command reg) (seek_command at.cyl_no)
    if not (seek == ready) then (do verho nucleus m; pure (sub32 0 seek)) else (do
      set_cell (d_data0 reg) buffer
      st ← start_device diskint dev (d_command reg) (block_command at.head_no at.sect_no op)
      verho nucleus m
      pure (signed_status st))

  -- `write_to_disk_for_pager` and `read_from_disk_for_pager`
  unfoldable pub disk_for_pager : (op dev sector buffer : ℕ) → Ptr → Code ℕ
  disk_for_pager op dev sector buffer sup = do
    m ← dev_mutex nucleus diskint dev 0
    let reg = dev_addr_base diskint dev
    dim ← cell (d_data1 reg)
    if slt (disk_size dim) sector then program_trap_handler nucleus sup null else skip
    passern nucleus m
    transfer_block op dev (pager_chs (maxhead dim) (maxsect dim) sector) buffer reg m

  unfoldable pub write_to_disk_for_pager : (dev sector src : ℕ) → Ptr → Code ℕ
  write_to_disk_for_pager = disk_for_pager writeblk_dsk

  unfoldable pub read_from_disk_for_pager : (dev sector dst : ℕ) → Ptr → Code ℕ
  read_from_disk_for_pager = disk_for_pager readblk_dsk

  -- `read_write_flash`
  unfoldable pub read_write_flash : (frame : ℕ) → Ptr → (block is_read : ℕ) → Action
  read_write_flash frame sup block is_read = do
    owner ← get (λ s. s.asid frame)
    own ← get (λ s. s.sup_asid sup)
    let dev = if is_read == 1 then sub32 own 1 else sub32 owner 1
    m ← dev_mutex nucleus flashint dev 0
    let reg = dev_addr_base flashint dev
    passern nucleus m
    set_cell (d_data0 reg) (frame_addr frame)
    let command = if is_read == 0 then writeblk_flash else readblk_flash
    st ← start_device flashint dev (d_command reg) (bit_or (shl block 8) command)
    verho nucleus m
    sema ← get (λ s. s.statics.swap_pool_sema4)
    if not (st == ready) then program_trap_handler nucleus sup sema else skip
