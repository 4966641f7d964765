-- ===== src/UserWitnesses.antt =====
-- The theorems on the support level (phases 3 to 5) at the memory of UserSamples.antt.
use operating_system_cs.Base.{
  ◌/◌, ◌≢◌, ◌+◌, ◌*◌, ◌≡◌, refl, [], ◌∷◌, List, true, has, arith, ℕ, ◌<◌,
}
use operating_system_cs.Support.Code.{load_state, ◌>>◌}
use operating_system_cs.Support.Logic.{After, Finishes}
use operating_system_cs.Vm.{u_tlb_refill_handler, missing_vpn}
use operating_system_cs.Vm.Geometry.{pager_chs, user_chs}
use operating_system_cs.Vm.Sectors.{OnDisk, pager_chs-OnDisk, user_chs-OnDisk}
use operating_system_cs.Vm.Replace.{replace_times, replace_times-all}
use operating_system_cs.Vm.Fault.{bring_in, absent_lo}
use operating_system_cs.Vm.Fault.Trace.{IsServed}
use operating_system_cs.Vm.Fault.Transfer.{Moved, bring_in-moves}
use operating_system_cs.Adl.{enlist, wake_due}
use operating_system_cs.Adl.List.{Sleeper, IsAdl, insert_sleeper}
use operating_system_cs.Adl.Enlist.{enlist-IsAdl}
use operating_system_cs.Adl.Wake.Due.{wake_due-all}
use mathlib.Core.List.{Mem}
use operating_system_cs.Adl.Wake.{wake_call}
use operating_system_cs.Adl.Wake.Alarm.{enlist-woken}
use operating_system_cs.Adl.Wake.Clock.{IsWoken}
use operating_system_cs.Instantiator.{init_uproc_pg_table, start_uprocs}
use operating_system_cs.Instantiator.Ready.{creations}
use operating_system_cs.Instantiator.Start.{support_at, start_uprocs-all}
use operating_system_cs.Instantiator.PageTable.{wanted_hi, u_tlb_refill_handler-page}
use operating_system_cs.UserCalls.Switch.{user_switch, general_exception_handler}
use operating_system_cs.UserCalls.Switch.Breaks.{user_switch_with_breaks, user_switch-breaks}
use operating_system_cs.UserCalls.Refused.{Ends, trap, Refused-IsReleased}
use operating_system_cs.UserCalls.{helper_check_string_outside_addr_space}
use operating_system_cs.UserCalls.Print.{write_to_printer}
use operating_system_cs.UserCalls.Print.Paper.{write_to_printer-Prints}
use operating_system_cs.Adl.Init.{delayd_elem, make_adl}
use operating_system_cs.Adl.Empty.{free_delayds, make_adl-IsAdl}
use operating_system_cs.Kernel.Const.{v0, generalexcept}
use operating_system_cs.Vm.Fault.Isolated.{Reach-isolated}
use operating_system_cs.Support.Const.{pte_elem}
use operating_system_cs.FaultSamples.{two_faults, two_faults-Reach, two_faults-valid}
use operating_system_cs.UserSamples.{
  moving, moving-Disk, creating, creating-Creates, serving, serving-Kills, serving-Quiet,
  serving-Supplies, printing, printing-Printer, writer, answering, killing, answering-Undisturbing,
  killing-Kills, system, system-IsMapped, system-IsAdl, sleeper,
}

bring_in-moves_example :
    Finishes
      (λ _ s'. (i : ℕ) × IsServed Moved 9000 0x8_0003 system s' i)
      (bring_in moving 9000 system)
bring_in-moves_example =
    bring_in-moves moving 9000 system (moving-Disk 9000) system-IsMapped (ground arith)
      (ground arith) refl

enlist-IsAdl_example :
    Finishes
      (λ _ s'.
        IsAdl s' 200
          (insert_sleeper (record { addr = 400; wake = 60; sup = 8000 }) (sleeper ∷ []))
          (500 ∷ [])
        × (s' ≡ record system {
          d_next = s'.d_next;
          d_wake_time = s'.d_wake_time;
          d_sup_struct = s'.d_sup_struct;
          delayd_free_h = s'.delayd_free_h;
        }))
      (enlist answering 608 60 8000 system)
enlist-IsAdl_example =
    enlist-IsAdl answering system 608 200 400 60 8000 (sleeper ∷ []) (500 ∷ []) system-IsAdl
      (omega arith)

wake_due-all_example :
    Finishes
      (λ _ s'.
        (woken : List Sleeper) × ((rest : List Sleeper) × IsWoken system s' 200
            (sleeper ∷ [])
            (400 ∷ 500 ∷ [])
            54
            56
            woken
            rest))
      (wake_due answering 22 54 system)
wake_due-all_example =
    wake_due-all answering 54 56 system 200 (sleeper ∷ []) (400 ∷ 500 ∷ []) answering-Undisturbing
      (omega arith) (omega arith) system-IsAdl (omega arith, omega arith, tt)

enlist-woken_example :
    Finishes
      (λ _ s'. Mem (wake_call (record { addr = 400; wake = 52; sup = 8000 })) s'.calls)
      ((enlist answering 608 52 8000 >> wake_due answering 22 54) system)
enlist-woken_example =
    enlist-woken answering 608 52 8000 54 56 system 200 400 (sleeper ∷ []) (500 ∷ [])
      answering-Undisturbing (omega arith) (omega arith) (omega arith) system-IsAdl
      (omega arith, omega arith, (omega arith, omega arith, tt))

user_switch-breaks_example :
    user_switch killing 5 10 9000 ≡ user_switch_with_breaks killing 5 10 9000
user_switch-breaks_example = user_switch-breaks killing 5 10 9000 killing-Kills

pager_chs-OnDisk_example :
    OnDisk 10 4 8 (pager_chs 4 8 77)
    × (((pager_chs 4 8 77).cyl_no * 4 + (pager_chs 4 8 77).head_no) * 8 + (pager_chs 4 8 77).sect_no
        ≡ 77)
pager_chs-OnDisk_example =
    pager_chs-OnDisk 10 4 8 77 (omega arith) (omega arith) (omega arith) (omega arith) (omega arith)

user_chs-OnDisk_example :
    OnDisk 10 4 8 (user_chs 10 4 8 277)
    × (((user_chs 10 4 8 277).head_no * 10 + (user_chs 10 4 8 277).cyl_no) * 8
          + (user_chs 10 4 8 277).sect_no
        ≡ 277)
user_chs-OnDisk_example =
    user_chs-OnDisk 10 4 8 277 (omega arith) (omega arith) (omega arith) (omega arith) (omega arith)

replace_times-all_example :
    Finishes
      (λ is s'. (s' ≡ system) × ((j : ℕ) → j < 32 → has j is ≡ true))
      (replace_times 32 system)
replace_times-all_example =
    replace_times-all system (omega arith) (λ i l e. absurd (omega (arith, e)))

u_tlb_refill_handler-page_example :
    After
      (λ _ _. ⊥)
      (λ d s'.
        (d ≡ load_state system.bios)
        × (s'.tlb ≡ (wanted_hi 1 5, absent_lo) ∷ [])
        × (missing_vpn (wanted_hi 1 5) ≡ missing_vpn system.bios.s_entry_hi))
      ((init_uproc_pg_table 9000 >> u_tlb_refill_handler) system)
u_tlb_refill_handler-page_example =
    u_tlb_refill_handler-page system 9000 5 (omega arith) refl (omega arith) refl

Refused-IsReleased_example : Ends 9000 system (general_exception_handler serving 5 system)
Refused-IsReleased_example =
    Refused-IsReleased serving 9000 system serving-Kills (serving-Quiet 9000) serving-Supplies 5
      (general_exception_handler serving 5) (trap (omega arith))

write_to_printer-Prints_example :
    Finishes
      (λ _ s'.
        ((s'.sup_except_state 9000 generalexcept).s_reg v0 ≡ 3) × (s'.paper ≡ 65 ∷ 65 ∷ 65 ∷ []))
      (write_to_printer printing 9000 writer)
unfolding helper_check_string_outside_addr_space
write_to_printer-Prints_example =
    write_to_printer-Prints printing 9000 writer 3 (printing-Printer 9000) refl refl (omega arith)
      (omega arith)

make_adl-IsAdl_example :
    Finishes
      (λ _ s'. IsAdl s' (delayd_elem system 1) [] (free_delayds system) × (s'.words 608 ≡ 1))
      (make_adl system)
make_adl-IsAdl_example = make_adl-IsAdl system (omega arith)

Reach-isolated_example :
    (two_faults.entry_lo (pte_elem 9000 3)) / 4096 ≢ (two_faults.entry_lo (pte_elem 9600 3)) / 4096
Reach-isolated_example =
    Reach-isolated answering two_faults (pte_elem 9000 3) (pte_elem 9600 3) two_faults-Reach
      two_faults-valid.0 two_faults-valid.1 (omega arith)

start_uprocs-all_example :
    Finishes
      (λ _ s'.
        ((k : ℕ) → k < 3 → s'.sup_asid (support_at system.statics k) ≡ k + 1)
        × (s'.calls ≡ creations system.statics 3 1 []))
      (start_uprocs creating 3 1 system)
start_uprocs-all_example = start_uprocs-all creating 3 system creating-Creates (omega arith)
