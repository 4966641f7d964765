-- ===== src/FaultSamples.antt =====
-- Two page faults in a row (phase3/vmSupport.c) at the memory of UserSamples.antt.
use operating_system_cs.Base.{true, false, ◌≡◌, ◌≢◌, refl, arith}
use operating_system_cs.Ring.{Ptr, null}
use operating_system_cs.Support.{Store}
use operating_system_cs.Support.Code.{Out, done, left, crash, no_fuel}
use operating_system_cs.Vm.{init_swap_struct, clear_frames, page_replace, first_empty}
use operating_system_cs.Vm.Geometry.{disk_size}
use operating_system_cs.Vm.Fault.{bring_in, evict, install, table_index, backing_sector}
use operating_system_cs.Vm.Fault.Rely.{is_valid, dimensions}
use operating_system_cs.Vm.Fault.Served.{faulting, bring_in-Holds}
use operating_system_cs.Vm.Fault.Isolated.{
  Reach, start, next, serve, Reach-IsMapped, init_swap_struct-IsMapped,
}
use operating_system_cs.Support.Logic.{Finishes}
use operating_system_cs.Support.Machine.{slt}
use operating_system_cs.Support.Const.{minus_one, pte_elem}
use operating_system_cs.Vm.Disk.{
  read_from_disk_for_pager, disk_for_pager, transfer_block, start_device,
}
use operating_system_cs.UserSamples.{answering, answering-Quiet, system}

-- The memory that a command leaves.
abbrev left_by : Out (Unit {0}) → Store
left_by (done a s) = s
left_by (left d s) = s
left_by crash = system
left_by no_fuel = system

left_by-done :
    (P : Unit {0} → Store → Type 0) (o : Out (Unit {0})) → Finishes P o → o ≡ done tt (left_by o)
left_by-done P (done a s) h = refl
left_by-done P (left d s) h = absurd h
left_by-done P crash h = absurd h
left_by-done P no_fuel h = absurd h

-- The memory with the swap pool initialised, and then with a page fault of the process 9000 and one of
-- the process 9600 served.
abbrev started : Store
started = left_by (init_swap_struct system)

abbrev one_fault : Store
one_fault = left_by (bring_in answering 9000 started)

abbrev pub two_faults : Store
two_faults = left_by (bring_in answering 9600 one_fault)

-- A served page fault leads from a reachable memory to a reachable one.
fault-Reach :
    (sup : Ptr) (s : Store)
    → Reach answering s
    → s.sup_asid sup ≡ 1
    → faulting s sup ≡ 0x8_0003
    → pte_elem sup 3 ≢ null
    → slt (disk_size (dimensions s)) 3 ≡ false
    → Reach answering (left_by (bring_in answering sup s))
fault-Reach sup s r own page table fits =
    let user : s.sup_asid sup ≢ minus_one = omega (arith, own) in
    let table' : pte_elem sup (table_index (faulting s sup)) ≢ null = simp page table in
    let fits' : slt (disk_size (dimensions s))
          (backing_sector (s.sup_asid sup) (table_index (faulting s sup)))
        ≡ false =
      simp (own, page) fits in
    next s _ r (
      serve sup (answering-Quiet sup) user table' fits' (
        left_by-done _ _ (
          bring_in-Holds answering sup (answering-Quiet sup) s (Reach-IsMapped answering s r) user
            table' fits')))

started-Reach : Reach answering started
started-Reach =
    start system started (omega arith) (λ e. refl)
      (left_by-done _ _ (init_swap_struct-IsMapped system (omega arith) (λ e. refl)))

one_fault-Reach : Reach answering one_fault
unfolding init_swap_struct clear_frames
one_fault-Reach = fault-Reach 9000 started started-Reach refl refl (omega arith) refl

pub two_faults-Reach : Reach answering two_faults
unfolding init_swap_struct clear_frames page_replace first_empty bring_in evict install
    read_from_disk_for_pager disk_for_pager transfer_block start_device
two_faults-Reach = fault-Reach 9600 one_fault one_fault-Reach refl refl (omega arith) refl

pub two_faults-valid :
    (is_valid (two_faults.entry_lo (pte_elem 9000 3)) ≡ true)
    × (is_valid (two_faults.entry_lo (pte_elem 9600 3)) ≡ true)
unfolding init_swap_struct clear_frames page_replace first_empty bring_in evict install
    read_from_disk_for_pager disk_for_pager transfer_block start_device
two_faults-valid = (refl, refl)
