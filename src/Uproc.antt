-- ===== src/Uproc.antt =====
-- phase3/sysSupport.c, the part that ends a user process, which the pager and the devices call too.
-- The system calls stand in UserCalls.
use operating_system_cs.Base.{ℕ, zero, suc, if◌then◌else◌, ◌==◌, upd, bit_and}
use operating_system_cs.Ring.{Ptr, null}
use operating_system_cs.Support.{Store}
use operating_system_cs.Support.Const.{
  minus_one, swap_pool_size, page_table_size, pte_elem, pfn_vbit_off,
}
use operating_system_cs.Support.Code.{Nucleus, Action, skip, get, put, syscall, ◌>>=◌, ◌>>◌}
use operating_system_cs.Support.Machine.{interrupts_off, interrupts_on, passern, verho}

-- `swapPoolTable[i]` is made unoccupied.
abbrev pub clear_frame : ℕ → Store → Store
clear_frame i s = record s {
  asid = upd s.asid i minus_one;
  vpn = upd s.vpn i minus_one;
  matching_pg_table_entry = upd s.matching_pg_table_entry i null;
}

-- The first `n` rounds of the loop over the swap pool table.
unfoldable pub release_frames : ℕ → ℕ → Store → Store
release_frames zero a s = s
release_frames (suc n) a s =
    let rest = release_frames n a s in if rest.asid n == a then clear_frame n rest else rest

-- The first `n` rounds of the loop over the page table of `sup`.
unfoldable pub invalidate_pages : ℕ → Ptr → Store → Store
invalidate_pages zero sup s = s
invalidate_pages (suc n) sup s =
    let rest = invalidate_pages n sup s in
    let e = pte_elem sup n in
    record rest { entry_lo = upd rest.entry_lo e (bit_and (rest.entry_lo e) pfn_vbit_off) }

module _ (nucleus : Nucleus) where
  -- `TERMINATE` up to SYS2, and SYS2.
  unfoldable pub give_up : Ptr → Action
  give_up sup = do
    interrupts_off
    sema ← get (λ s. s.statics.swap_pool_sema4)
    master ← get (λ s. s.statics.master_semaphore)
    passern nucleus sema
    put (λ s. release_frames swap_pool_size (s.sup_asid sup) s)
    verho nucleus sema
    put (invalidate_pages page_table_size sup)
    interrupts_on
    verho nucleus master
    skip

  unfoldable pub die : Action
  die = do syscall nucleus 2 0 0 0; skip

  -- `TERMINATE`
  unfoldable pub terminate : Ptr → Action
  terminate sup = give_up sup >> die

  -- `program_trap_handler`
  unfoldable pub program_trap_handler : Ptr → Ptr → Action
  program_trap_handler sup held = do
    if held == null then skip else (do verho nucleus held; skip)
    terminate sup
