-- ===== src/UserSamples.antt =====
-- A small memory of the support level (phases 3 to 5) and two nuclei, on which the theorems are tried.
use operating_system_cs.Base.{
  ℕ, inl, inr, ◌+◌, ◌*◌, refl, [], ◌∷◌, if◌then◌else◌, ◌==◌, upd, arith, ap,
}
use operating_system_cs.Ring.{Ptr, null}
use operating_system_cs.Kernel.{State}
use operating_system_cs.Samples.{blank_state}
use operating_system_cs.Support.{Statics, Store}
use operating_system_cs.Support.Code.{Nucleus, back, gone}
use operating_system_cs.Vm.Fault.Rely.{Quiet, Same-refl}
use operating_system_cs.Vm.Fault.Mapped.{IsMapped}
use operating_system_cs.Adl.List.{Sleeper, IsAdl}
use operating_system_cs.Adl.Wake.{Undisturbing}
use operating_system_cs.UserCalls.Switch.Breaks.{Kills}
use operating_system_cs.Instantiator.Ready.{Creates}
use operating_system_cs.UserCalls.Refused.{Supplies}
use operating_system_cs.UserCalls.Print.Ready.{Printer}
use operating_system_cs.Kernel.Const.{a1, dev_addr_base}
use operating_system_cs.Vm.Fault.Transfer.{Disk}
use operating_system_cs.Support.Const.{d_command, diskint, d_data0, prntint}

-- Every call returns 1, which is READY; and the same but for SYS2.
abbrev pub answering : Nucleus
answering c s = back 1 s

abbrev pub killing : Nucleus
killing c s = if c.number == 2 then gone s else back 1 s

pub answering-Quiet : (sup : Ptr) → Quiet answering sup
answering-Quiet sup c s h = Same-refl sup s

pub answering-Undisturbing : Undisturbing answering
answering-Undisturbing c s h = (refl, refl)

pub killing-Kills : Kills killing
killing-Kills c s e = ap (λ n. if n == 2 then gone s else back 1 s) e

abbrev pub statics : Statics
statics = record {
  swap_pool_sema4 = 600;
  master_semaphore = 604;
  mutex = 1000;
  adl_mutex = 608;
  delayd_table = 2000;
  delay_daemon = 16;
  tlb_exception_handler = 32;
  general_exception_handler = 48;
  daemon_state = 3000;
  init_state = 3200;
  init_support_arr = 8000;
}

-- The state of a process that missed its page 3 or 5.
abbrev pub missed : ℕ → State
missed hi = record blank_state { s_entry_hi = hi }

-- A process 9000 with the number 1, and a swap pool that the process 2 fills. The disk has 10
-- cylinders, 10 heads and 10 sectors. One process sleeps till 50, and two descriptors are free.
abbrev pub system : Store
system = record {
  sup_asid = λ _. 1;
  sup_except_state = λ _ _. missed 0x8000_3000;
  sup_except_context = λ _ _. record { c_stack_ptr = 0; c_status = 0; c_pc = 0 };
  entry_hi = λ _. 0;
  entry_lo = λ _. 0;
  asid = λ _. 2;
  vpn = λ _. 0x8_0000;
  matching_pg_table_entry = λ i. 50000 + 8 * i;
  next_frame = 7;
  d_next = upd (upd (upd (λ _. null) 100 300) 300 200) 400 500;
  d_wake_time = upd (upd (λ _. 0) 300 50) 200 0x7FFF_FFFF;
  d_sup_struct = upd (λ _. null) 300 9000;
  delayd_free_h = 400;
  delayd_h = 100;
  words = upd (λ _. 0x000A_0A0A) 0x1000_0024 1;
  chars = λ _. 65;
  states = λ _. blank_state;
  bios = missed 0x8000_5000;
  current_support = 9000;
  status = 1;
  cp0_entry_hi = 0;
  cp0_entry_lo = 0;
  tlb = [];
  clock = 55 ∷ 56 ∷ [];
  calls = [];
  paper = [];
  moves = [];
  junk = 0;
  statics = statics;
}

pub system-IsMapped : IsMapped system
system-IsMapped = record {
  pool = record {
    next_in_pool = omega arith;
    has_entry = λ i l occ e. absurd (omega (arith, l, e));
    has_sector = λ i l occ. refl;
  };
  mapped = λ e ok. absurd (ground (arith, ok));
}

abbrev pub sleeper : Sleeper
sleeper = record { addr = 300; wake = 50; sup = 9000 }

pub system-IsAdl : IsAdl system 200 (sleeper ∷ []) (400 ∷ 500 ∷ [])
system-IsAdl = record {
  head_not_null = ground arith;
  tail_not_null = ground arith;
  tail_wake = refl;
  active = (
    refl,
    omega arith,
    record { not_null = ground arith; wake_at = refl; sup_at = refl; early = omega arith },
    refl,
  );
  distinct = (refl, (refl, (refl, tt)));
  free_chain = record {
    links = (refl, ground arith, (refl, ground arith, refl));
    distinct = (refl, (refl, tt));
  };
  apart = λ d m. ground (arith, m);
  count = omega arith;
}

-- SYS8 returns the support structure 9000, SYS2 does not return, every other call returns 1.
abbrev pub serving : Nucleus
serving c s = if c.number == 2 then gone s else if c.number == 8 then back 9000 s else back 1 s

pub serving-Kills : Kills serving
serving-Kills c s e = simp e

pub serving-Supplies : Supplies serving 9000
serving-Supplies c s e = simp e

pub serving-Quiet : (sup : Ptr) → Quiet serving sup
serving-Quiet sup c s h = elim h [
  | inl e ↦ simp e (Same-refl sup s)
  | inr h' ↦ elim h' [ inl e ↦ simp e (Same-refl sup s) | inr e ↦ simp e (Same-refl sup s) ]
]

-- SYS5 returns READY and the disk has performed the command in its registers; every other call
-- returns 1.
abbrev pub moving : Nucleus
moving c s =
    if c.number == 5
    then back 1 (record s {
      moves =
          s.words (d_data0 (dev_addr_base diskint 0))
          ∷ s.words (d_command (dev_addr_base diskint 0))
          ∷ s.moves;
    })
    else back 1 s

pub moving-Disk : (sup : Ptr) → Disk moving sup
moving-Disk sup = record {
  mutex = λ c s h. elim h [
    | inl e ↦ simp e (Same-refl sup s, refl)
    | inr e ↦ simp e (Same-refl sup s, refl)
  ];
  perform = λ c s e. simp e (
    refl,
    (
      record {
        asid = refl;
        vpn = refl;
        entry = refl;
        next = refl;
        own_asid = refl;
        geometry = refl;
        valid = λ d v. refl;
      },
      refl,
    ),
  );
}

-- Every call returns 0.
abbrev pub creating : Nucleus
creating c s = back 0 s

pub creating-Creates : Creates creating
creating-Creates c s a e pos le r = (refl, refl, refl, refl)

-- A nucleus that prints: SYS5 puts the character in the data register of the printer 0 on the paper.
abbrev pub printing : Nucleus
printing c s =
    if c.number == 5
    then back 1 (record s { paper = s.words (d_data0 (dev_addr_base prntint 0)) ∷ s.paper })
    else back 1 s

pub printing-Printer : (sup : Ptr) → Printer printing sup 0
printing-Printer sup = record {
  mutex = λ c s h. elim h [
    | inl e ↦ simp e (record { state = refl; text = refl; on_paper = refl })
    | inr e ↦ simp e (record { state = refl; text = refl; on_paper = refl })
  ];
  print = λ c s e w. simp e (refl, record { state = refl; text = refl; on_paper = refl });
}

-- The process asks for a text of 3 characters from the address 0x80001000 on.
abbrev pub writer : Store
writer = record system {
  sup_except_state =
      λ _ _. record (missed 0x8000_3000) { s_reg = λ r. if r == a1 then 0x8000_1000 else 3 };
}
