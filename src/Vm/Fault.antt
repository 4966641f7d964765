-- ===== src/Vm/Fault.antt =====
-- `TLB_exception_handler` of phase3/vmSupport.c.
pub mod Rely
pub mod Mapped
pub mod Install
pub mod Trace
pub mod Served
pub mod Transfer
pub mod Isolated
use operating_system_cs.Base.{
  ℕ, ◌-◌, if◌then◌else◌, ◌==◌, not, upd, add32, sub32, mul32, bit_and, bit_or,
}
use operating_system_cs.Ring.{Ptr, null}
use operating_system_cs.Kernel.Const.{cause_exc_code, pgfaultexcept}
use operating_system_cs.Support.Const.{
  minus_one, uproc_stack_vpn, startvpn, page_table_size, dbiton, vbiton, gbitoff, vbitoff, pte_elem,
}
use operating_system_cs.Support.Code.{
  Nucleus, Action, skip, get, put, load_from, store_to, syscall, ◌>>=◌, ◌>>◌,
}
use operating_system_cs.Support.Machine.{
  interrupts_off, interrupts_on, tlbclr, ldst, passern, verho, saved_state,
}
use operating_system_cs.Uproc.{program_trap_handler}
use operating_system_cs.Vm.{missing_vpn, page_replace}
use operating_system_cs.Vm.Disk.{frame_addr, write_to_disk_for_pager, read_from_disk_for_pager}

-- The index of a page in the page table and in the backing store.
abbrev pub table_index : ℕ → ℕ
table_index vpn = if vpn == uproc_stack_vpn then page_table_size - 1 else sub32 vpn startvpn

-- `32 * (asid - 1) + k`
abbrev pub backing_sector : (asid k : ℕ) → ℕ
backing_sector a k = add32 (mul32 32 (sub32 a 1)) k

-- `(DBITON & GBITOFF) & VBITOFF`
abbrev pub absent_lo : ℕ
absent_lo = bit_and (bit_and dbiton gbitoff) vbitoff

-- The page table entry of a page in the frame `i`.
abbrev pub present_lo : ℕ → ℕ
present_lo i = bit_or (bit_or (frame_addr i) vbiton) dbiton

-- The page `vpn` of `sup` now stands in the frame `i`.
unfoldable pub install : (i vpn : ℕ) → Ptr → Action
install i vpn sup = do
  put (λ s. record s {
    asid = upd s.asid i (s.sup_asid sup);
    vpn = upd s.vpn i vpn;
    matching_pg_table_entry = upd s.matching_pg_table_entry i (pte_elem sup (table_index vpn));
  })
  interrupts_off
  e ← get (λ s. s.matching_pg_table_entry i)
  put (λ s. record s { entry_lo = upd s.entry_lo e (present_lo i) })
  tlbclr
  interrupts_on

module _ (nucleus : Nucleus) where
  -- The page in the frame `i`, if there is one, leaves it, and is written back.
  unfoldable pub evict : ℕ → Ptr → Action
  evict i sup = do
    owner ← get (λ s. s.asid i)
    if owner == minus_one then skip else do
      interrupts_off
      e ← get (λ s. s.matching_pg_table_entry i)
      store_to e (λ s. record s { entry_lo = upd s.entry_lo e absent_lo })
      tlbclr
      k ← get (λ s. table_index (s.vpn i))
      interrupts_on
      lo ← load_from (λ s. s.entry_lo) e
      a ← get (λ s. s.asid i)
      if bit_and lo dbiton == dbiton
          then (do write_to_disk_for_pager nucleus 0 (backing_sector a k) (frame_addr i) sup; skip)
          else skip

  -- The handler with the swap pool's semaphore held.
  unfoldable pub bring_in : Ptr → Action
  bring_in sup = do
    st ← saved_state sup pgfaultexcept
    let missing = missing_vpn st.s_entry_hi
    i ← page_replace
    evict i sup
    a ← get (λ s. s.sup_asid sup)
    read_from_disk_for_pager nucleus 0 (backing_sector a (table_index missing)) (frame_addr i) sup
    install i missing sup

  -- `TLB_exception_handler`
  unfoldable pub tlb_exception_handler : Action
  tlb_exception_handler = do
    sup ← syscall nucleus 8 0 0 0
    st ← saved_state sup pgfaultexcept
    if cause_exc_code st.s_cause == 1 then program_trap_handler nucleus sup null else skip
    sema ← get (λ s. s.statics.swap_pool_sema4)
    passern nucleus sema
    bring_in sup
    verho nucleus sema
    back_to ← saved_state sup pgfaultexcept
    ldst back_to
