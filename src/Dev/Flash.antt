-- ===== src/Dev/Flash.antt =====
-- `READ_FROM_FLASH` and `WRITE_TO_FLASH` of phase4/devSupport.c. The device number is not checked.
use operating_system_cs.Base.{ℕ, ◌||◌, if◌then◌else◌, add32, mul32, shl, ltb, leb}
use operating_system_cs.Ring.{Ptr, null}
use operating_system_cs.Kernel.Const.{dev_addr_base, v0, a1, a2, a3}
use operating_system_cs.Support.Const.{
  d_command, d_data0, d_data1, flashint, readblk_flash, writeblk_flash, blocksize, kuseg,
  flask_dma_buffer_base_addr,
}
use operating_system_cs.Support.Code.{Nucleus, Action, skip, ◌>>=◌, ◌>>◌}
use operating_system_cs.Support.Machine.{
  cell, set_cell, passern, verho, dev_mutex, slt, saved_reg, set_saved_reg,
}
use operating_system_cs.Uproc.{program_trap_handler}
use operating_system_cs.Vm.Disk.{start_device, signed_status}
use operating_system_cs.Dev.{copy_block}

-- `FLASK_DMA_BUFFER_BASE_ADDR + BLOCKSIZE * devNo`
abbrev pub flash_buffer : ℕ → Ptr
flash_buffer dev = add32 flask_dma_buffer_base_addr (mul32 blocksize dev)

-- `(block << BLOCKNUM_SHIFT) + op`
abbrev pub flash_command : (block op : ℕ) → ℕ
flash_command block op = add32 (shl block 8) op

module _ (nucleus : Nucleus) where
  -- The check at the start of both flash calls: the first 32 blocks are backing store.
  unfoldable pub check_flash : Ptr → Ptr → Action
  check_flash sup reg = do
    address ← saved_reg sup a1
    block ← saved_reg sup a3
    blocks ← cell (d_data1 reg)
    if ltb address kuseg || slt block 32 || leb blocks block
        then program_trap_handler nucleus sup null
        else skip

  -- `READ_FROM_FLASH`
  unfoldable pub read_from_flash : Ptr → Action
  read_from_flash sup = do
    dev ← saved_reg sup a2
    m ← dev_mutex nucleus flashint dev 0
    let reg = dev_addr_base flashint dev
    check_flash sup reg
    passern nucleus m
    set_cell (d_data0 reg) (flash_buffer dev)
    block ← saved_reg sup a3
    st ← start_device nucleus flashint dev (d_command reg) (flash_command block readblk_flash)
    address ← saved_reg sup a1
    copy_block (flash_buffer dev) address
    verho nucleus m
    set_saved_reg sup v0 (signed_status st)

  -- `WRITE_TO_FLASH`
  unfoldable pub write_to_flash : Ptr → Action
  write_to_flash sup = do
    dev ← saved_reg sup a2
    m ← dev_mutex nucleus flashint dev 0
    let reg = dev_addr_base flashint dev
    check_flash sup reg
    passern nucleus m
    address ← saved_reg sup a1
    copy_block address (flash_buffer dev)
    set_cell (d_data0 reg) (flash_buffer dev)
    block ← saved_reg sup a3
    st ← start_device nucleus flashint dev (d_command reg) (flash_command block writeblk_flash)
    verho nucleus m
    set_saved_reg sup v0 (signed_status st)
