-- ===== src/Dev.antt =====
-- phase4/devSupport.c: SYS14 to SYS17, blocks of a disk or a flash device.
pub mod Flash
use operating_system_cs.Base.{
  ℕ, zero, suc, ◌||◌, if◌then◌else◌, ◌==◌, not, upd, add32, sub32, mul32, ltb,
}
use operating_system_cs.Ring.{Ptr, null}
use operating_system_cs.Kernel.Const.{dev_addr_base, v0, a1, a2, a3}
use operating_system_cs.Support.{Store}
use operating_system_cs.Support.Const.{
  d_command, d_data0, d_data1, diskint, ready, readblk_dsk, writeblk_dsk, blocksize, kuseg,
  disk_dma_buffer_base_addr,
}
use operating_system_cs.Support.Code.{Nucleus, Action, skip, put, ◌>>=◌, ◌>>◌}
use operating_system_cs.Support.Machine.{
  cell, set_cell, passern, verho, dev_mutex, slt, saved_reg, set_saved_reg,
}
use operating_system_cs.Uproc.{program_trap_handler}
use operating_system_cs.Vm.Geometry.{maxcyl, maxhead, maxsect, disk_size, user_chs}
use operating_system_cs.Vm.Disk.{start_device, seek_command, block_command, signed_status}

-- `n` rounds of the loop of `helper_copy_block`.
unfoldable pub copy_words : (n : ℕ) → (src dst : Ptr) → Store → Store
copy_words zero src dst s = s
copy_words (suc n) src dst s =
    copy_words n (add32 src 4) (add32 dst 4) (record s { words = upd s.words dst (s.words src) })

-- `helper_copy_block`: BLOCKSIZE / 4 words.
abbrev pub copy_block : (src dst : Ptr) → Action
copy_block src dst = put (copy_words 1024 src dst)

-- `DISK_DMA_BUFFER_BASE_ADDR + (BLOCKSIZE * devNo)`
abbrev pub disk_buffer : ℕ → Ptr
disk_buffer dev = add32 disk_dma_buffer_base_addr (mul32 blocksize dev)

module _ (nucleus : Nucleus) where
  -- The check at the start of both disk calls.
  unfoldable pub check_disk : Ptr → ℕ → Action
  check_disk sup dim = do
    address ← saved_reg sup a1
    sector ← saved_reg sup a3
    if ltb address kuseg || slt (disk_size dim) sector
        then program_trap_handler nucleus sup null
        else skip

  -- `WRITE_TO_DISK`
  unfoldable pub write_to_disk : Ptr → Action
  write_to_disk sup = do
    dev ← saved_reg sup a2
    m ← dev_mutex nucleus diskint dev 0
    let reg = dev_addr_base diskint dev
    dim ← cell (d_data1 reg)
    check_disk sup dim
    passern nucleus m
    sector ← saved_reg sup a3
    let at = user_chs (maxcyl dim) (maxhead dim) (maxsect dim) sector
    seek ← start_device nucleus diskint dev (d_command reg) (seek_command at.cyl_no)
    if not (seek == ready)
        then (do set_saved_reg sup v0 (sub32 0 seek); verho nucleus m; skip)
        else (do
          address ← saved_reg sup a1
          copy_block address (disk_buffer dev)
          set_cell (d_data0 reg) (disk_buffer dev)
          st ←
              start_device nucleus diskint dev (d_command reg)
                (block_command at.head_no at.sect_no writeblk_dsk)
          verho nucleus m
          set_saved_reg sup v0 (signed_status st))

  -- `READ_FROM_DISK`
  unfoldable pub read_from_disk : Ptr → Action
  read_from_disk sup = do
    dev ← saved_reg sup a2
    m ← dev_mutex nucleus diskint dev 0
    let reg = dev_addr_base diskint dev
    dim ← cell (d_data1 reg)
    check_disk sup dim
    passern nucleus m
    sector ← saved_reg sup a3
    let at = user_chs (maxcyl dim) (maxhead dim) (maxsect dim) sector
    seek ← start_device nucleus diskint dev (d_command reg) (seek_command at.cyl_no)
    if not (seek == ready)
        then (do set_saved_reg sup v0 (sub32 0 seek); verho nucleus m; skip)
        else (do
          set_cell (d_data0 reg) (disk_buffer dev)
          st ←
              start_device nucleus diskint dev (d_command reg)
                (block_command at.head_no at.sect_no readblk_dsk)
          address ← saved_reg sup a1
          copy_block (disk_buffer dev) address
          verho nucleus m
          set_saved_reg sup v0 (signed_status st))
