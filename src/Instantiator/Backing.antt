-- ===== src/Instantiator/Backing.antt =====
-- The copy of the user programs from the flash devices to the backing store on disk 0, by
-- `set_up_backing_store` of phase3/initProc.c.
use operating_system_cs.Base.{ℕ, zero, suc, ◌+◌, if◌then◌else◌, ◌==◌, not, add32, sub32, mul32}
use operating_system_cs.Kernel.Const.{dev_addr_base}
use operating_system_cs.Support.Const.{
  d_command, d_data0, d_data1, diskint, flashint, ready, readblk_flash, writeblk_dsk,
  page_table_size, uproc_num,
}
use operating_system_cs.Support.Code.{Nucleus, Code, Action, pure, skip, syscall, ◌>>=◌, ◌>>◌}
use operating_system_cs.Support.Machine.{cell, set_cell, passern, verho, dev_mutex, slt}
use operating_system_cs.Vm.Geometry.{maxhead, maxsect, disk_size, pager_chs}
use operating_system_cs.Vm.Disk.{start_device, seek_command, block_command, signed_status}
use operating_system_cs.Dev.{copy_block, disk_buffer}
use operating_system_cs.Dev.Flash.{flash_buffer, flash_command}

module _ (nucleus : Nucleus) where
  -- `helper_read_flash`
  unfoldable pub helper_read_flash : (dev block : ℕ) → Code ℕ
  helper_read_flash dev block = do
    let reg = dev_addr_base flashint dev
    (if slt 32 block then (do syscall nucleus 2 0 0 0; skip) else skip)
    set_cell (d_data0 reg) (flash_buffer dev)
    st ← start_device nucleus flashint dev (d_command reg) (flash_command block readblk_flash)
    pure (signed_status st)

  -- `helper_write_disk`, on disk 0
  unfoldable pub helper_write_disk : ℕ → Code ℕ
  helper_write_disk sector = do
    m ← dev_mutex nucleus diskint 0 0
    let reg = dev_addr_base diskint 0
    dim ← cell (d_data1 reg)
    (if slt (disk_size dim) sector then (do syscall nucleus 2 0 0 0; skip) else skip)
    let at = pager_chs (maxhead dim) (maxsect dim) sector
    seek ← start_device nucleus diskint 0 (d_command reg) (seek_command at.cyl_no)
    if not (seek == ready) then (do verho nucleus m; pure (sub32 0 seek)) else (do
      set_cell (d_data0 reg) (disk_buffer 0)
      st ←
          start_device nucleus diskint 0 (d_command reg)
            (block_command at.head_no at.sect_no writeblk_dsk)
      pure (signed_status st))

  -- The inner loop of `set_up_backing_store`, over the pages `page` to `page + n - 1`.
  unfoldable pub copy_pages : (n dev page : ℕ) → Action
  copy_pages zero dev page = skip
  copy_pages (suc n) dev page =
      let rest = copy_pages n dev (page + 1) in
      do
        m ← dev_mutex nucleus flashint dev 0
        passern nucleus m
        helper_read_flash dev page
        copy_block (flash_buffer dev) (disk_buffer dev)
        helper_write_disk (add32 (mul32 32 dev) page)
        verho nucleus m
        rest

  -- Its outer loop, over the devices `dev` to `dev + n - 1`.
  unfoldable pub copy_devices : (n dev : ℕ) → Action
  copy_devices zero dev = skip
  copy_devices (suc n) dev =
      let rest = copy_devices n (dev + 1) in do copy_pages page_table_size dev 0; rest

  -- `set_up_backing_store`
  unfoldable pub set_up_backing_store : Action
  set_up_backing_store = do
    m ← dev_mutex nucleus diskint 0 0
    passern nucleus m
    copy_devices uproc_num 0
    verho nucleus m
    skip
