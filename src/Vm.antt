-- ===== src/Vm.antt =====
-- phase3/vmSupport.c: the swap pool, the TLB refill, and the pager's disk and flash operations.
pub mod Geometry
pub mod Sectors
pub mod Disk
pub mod Replace
pub mod Fault
use operating_system_cs.Base.{
  ℕ, zero, suc, ◌+◌, ◌%◌, if◌then◌else◌, ◌==◌, upd, bit_and, shr, Option, none, some,
}
use operating_system_cs.Ring.{Ptr, Field, null}
use operating_system_cs.Support.{Store}
use operating_system_cs.Support.Const.{
  minus_one, swap_pool_size, page_table_size, pte_elem, vpn_shift, vpn_mask,
}
use operating_system_cs.Support.Code.{Code, Action, get, put, done, ◌>>=◌, ◌>>◌}
use operating_system_cs.Support.Machine.{ldst, tlbwr, set_cell}
use operating_system_cs.Uproc.{clear_frame}

-- The first `n` rounds of the loop of `initSwapStruct`.
unfoldable pub clear_frames : ℕ → Store → Store
clear_frames zero s = s
clear_frames (suc n) s = clear_frame n (clear_frames n s)

-- `initSwapStruct`
unfoldable pub init_swap_struct : Action
init_swap_struct = do
  put (clear_frames swap_pool_size)
  sema ← get (λ s. s.statics.swap_pool_sema4)
  set_cell sema 1

-- `(entryHI >> VPN_SHIFT) & VPN_MASK`
abbrev pub missing_vpn : ℕ → ℕ
missing_vpn hi = bit_and (shr hi vpn_shift) vpn_mask

-- `uTLB_RefillHandler`
unfoldable pub u_tlb_refill_handler : Action
u_tlb_refill_handler = do
  missing ← get (λ s. missing_vpn s.bios.s_entry_hi)
  sup ← get (λ s. s.current_support)
  let pte = pte_elem sup (missing % page_table_size)
  put (λ s. record s { cp0_entry_hi = s.entry_hi pte })
  put (λ s. record s { cp0_entry_lo = s.entry_lo pte })
  tlbwr
  st ← get (λ s. s.bios)
  ldst st

-- The loop of `page_replace` over the frames `i` to `i + n - 1`: the first one that is empty.
unfoldable pub first_empty : Field → (i n : ℕ) → Option ℕ
first_empty asid i zero = none
first_empty asid i (suc n) =
    let later = first_empty asid (suc i) n in if asid i == minus_one then some i else later

abbrev pub following : ℕ → ℕ
following frame = (frame + 1) % swap_pool_size

-- `page_replace` behind its loop.
abbrev pub picked : Option ℕ → Code ℕ
picked (some i) s =
    done i
      (record s { next_frame = if i == s.next_frame then following s.next_frame else s.next_frame })
picked none s = done s.next_frame (record s { next_frame = following s.next_frame })

-- `page_replace`
unfoldable pub page_replace : Code ℕ
page_replace s = picked (first_empty s.asid 0 swap_pool_size) s
