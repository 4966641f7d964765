-- ===== src/Samples.antt =====
-- A small memory of the nucleus on which the theorems are tried: a running pcb with two ready
-- children, a pcb that waits for a semaphore, and two free pcbs.
use operating_system_cs.Base.{refl, List, [], ◌∷◌, arith, upd, if◌then◌else◌, ◌==◌}
use operating_system_cs.Ring.{Ptr, null, Field}
use operating_system_cs.Chain.{linked, elems, array-Chain}
use operating_system_cs.Kernel.{State, Kernel}
use operating_system_cs.Pcb.Queue.{IsProcQ}
use operating_system_cs.Pcb.Free.{IsFree}
use operating_system_cs.Pcb.Tree.Children.{IsChildren}
use operating_system_cs.Asl.List.{Desc, IsAsl}

-- A field that is `NULL` everywhere.
abbrev pub nulls : Field
nulls a = null

abbrev pub blank_state : State
blank_state = record { s_entry_hi = 0; s_cause = 0; s_status = 0; s_pc = 0; s_reg = λ i. 0 }

-- The state of a process that has called from user mode with the semaphore of the pseudo-clock, at 492, in a1.
abbrev pub saved_state : State
saved_state = record {
  s_entry_hi = 64;
  s_cause = 32;
  s_status = 8;
  s_pc = 4096;
  s_reg = λ i. if i == 4 then 492 else i;
}

-- The links of the semaphore descriptors. The dummies are at 7000 and 7012 and the only active one at
-- 7024; those from 7036 on are free.
unfoldable pub desc_links : Field
unfolding linked
desc_links = upd (linked 7036 12 18 (upd (upd nulls 7000 7024) 7024 7012)) 7252 null

abbrev pub sample : Kernel
sample = record {
  p_next = upd (upd (upd (upd (upd nulls 2000 3000) 3000 2000) 4000 4000) 5000 6000) 6000 null;
  p_prev = upd (upd (upd nulls 2000 3000) 3000 2000) 4000 4000;
  p_prnt = upd (upd nulls 2000 1000) 3000 1000;
  p_child = upd nulls 1000 3000;
  p_next_sib = upd (upd nulls 2000 3000) 3000 2000;
  p_prev_sib = upd (upd nulls 2000 3000) 3000 2000;
  p_s = λ p. blank_state;
  p_time = λ p. 0;
  p_sem_add = upd nulls 4000 492;
  p_support_struct = upd nulls 1000 9000;
  pcb_free_h = 5000;
  s_next = desc_links;
  s_sem_add = upd (upd (upd nulls 7000 0) 7012 7252) 7024 492;
  s_proc_q = upd nulls 7024 4000;
  semd_free_h = 7036;
  semd_h = 7000;
  process_count = 4;
  soft_block_count = 0;
  ready_q = 3000;
  current_p = 1000;
  words = upd (λ a. 0) 492 0xFFFF_FFFF;
  bios = saved_state;
  states = λ a. saved_state;
  sup_except_state = λ s i. blank_state;
  sup_except_context = λ s i. record { c_stack_ptr = 8192; c_status = 4; c_pc = 16384 };
  timer = 1200;
  status = 0;
  layout = record {
    maxproc_pcbs = 1000;
    semd_table = 7000;
    device_sem = 300;
    exception_handler = 20000;
    u_tlb_refill_handler = 20004;
    test = 20008;
  };
}

abbrev pub waiting : List Desc
waiting = record { addr = 7024; sem = 492; queue = 4000 ∷ [] } ∷ []

abbrev pub free_descs : List Ptr
free_descs = elems 7036 12 0 19

pub sample-IsProcQ : IsProcQ sample 3000 (2000 ∷ 3000 ∷ [])
sample-IsProcQ = record {
  tail = refl;
  links = (refl, refl, (refl, refl, tt));
  distinct = (refl, (refl, tt));
  no_null = refl;
}

pub sample-IsChildren : IsChildren sample 1000 (2000 ∷ 3000 ∷ [])
sample-IsChildren = record {
  ring = record {
    tail = refl;
    links = (refl, refl, (refl, refl, tt));
    distinct = (refl, (refl, tt));
    no_null = refl;
  };
  parent = λ c m. ground arith;
}

pub sample-IsFree : IsFree sample (5000 ∷ 6000 ∷ [])
sample-IsFree = record {
  links = (refl, ground arith, (refl, ground arith, refl));
  distinct = (refl, (refl, tt));
}

pub sample-IsAsl : IsAsl sample 7012 waiting free_descs
unfolding desc_links linked elems
sample-IsAsl = record {
  head_not_null = ground arith;
  head_sem = refl;
  tail_not_null = ground arith;
  tail_sem = refl;
  sentinel_pos = ground arith;
  active = (
    refl,
    ground arith,
    record {
      not_null = ground arith;
      sem_add = refl;
      not_sentinel = ground arith;
      ring = record {
        tail = refl;
        links = (refl, refl, tt);
        distinct = (refl, tt);
        no_null = refl;
      };
      waiting = λ c m. ground arith;
    },
    refl,
  );
  free_chain =
      array-Chain 7036 12 (ground arith) (upd (upd nulls 7000 7024) 7024 7012) 18 (ground arith);
  apart = λ c m. ground arith;
  count = refl;
}
