-- ===== src/Asl/Frame.antt =====
-- The active semaphore list does not depend on what the code outside phase1/asl.c writes, as long as
-- the queue links of the blocked pcbs stay.
use operating_system_cs.Base.{◌≡◌, refl, sym, List, [], ◌∷◌, true, arith, has, has-append}
use mathlib.Core.Path.{subst}
use operating_system_cs.Ring.{Ptr, Ring-frame}
use operating_system_cs.Kernel.{Kernel}
use operating_system_cs.Asl.List.{Desc, blocked, queue_of, IsAsl}
use operating_system_cs.Asl.Focus.{In-blocked, Active-frame}

-- `k` with the values that `z` has outside the list.
abbrev pub outer : Kernel → Kernel → Kernel
outer k z = record k {
  p_next = z.p_next;
  p_prev = z.p_prev;
  p_prnt = z.p_prnt;
  p_child = z.p_child;
  p_next_sib = z.p_next_sib;
  p_prev_sib = z.p_prev_sib;
  p_s = z.p_s;
  p_time = z.p_time;
  p_support_struct = z.p_support_struct;
  pcb_free_h = z.pcb_free_h;
  process_count = z.process_count;
  soft_block_count = z.soft_block_count;
  ready_q = z.ready_q;
  current_p = z.current_p;
  words = z.words;
  bios = z.bios;
  sup_except_state = z.sup_except_state;
  timer = z.timer;
  status = z.status;
}

outer-IsAsl :
    (k z : Kernel) (t : Ptr) (ds : List Desc) (free : List Ptr)
    → ((c : Ptr)
        → has c (blocked ds) ≡ true
        → (z.p_next c ≡ k.p_next c) × (z.p_prev c ≡ k.p_prev c))
    → IsAsl k t ds free
    → IsAsl (outer k z) t ds free
outer-IsAsl k z t ds free links A = record {
  head_not_null = A.head_not_null;
  head_sem = A.head_sem;
  tail_not_null = A.tail_not_null;
  tail_sem = A.tail_sem;
  sentinel_pos = A.sentinel_pos;
  active =
      Active-frame k (outer k z) t 0 (k.s_next k.semd_h) ds A.active
        (λ e i lt h. record {
          not_null = h.not_null;
          sem_add = h.sem_add;
          not_sentinel = h.not_sentinel;
          ring =
              Ring-frame e.queue h.ring (λ c m. links c (ground (arith, m, In-blocked e ds c i)));
          waiting = h.waiting;
        })
        (λ e m. refl);
  free_chain = A.free_chain;
  apart = A.apart;
  count = A.count;
}

pub IsAsl-outer :
    (k k' : Kernel) (t : Ptr) (ds : List Desc) (free : List Ptr)
    → k' ≡ outer k k'
    → ((c : Ptr)
        → has c (blocked ds) ≡ true
        → (k'.p_next c ≡ k.p_next c) × (k'.p_prev c ≡ k.p_prev c))
    → IsAsl k t ds free
    → IsAsl k' t ds free
IsAsl-outer k k' t ds free same links A =
    subst (λ z. IsAsl z t ds free) (sym same) (outer-IsAsl k k' t ds free links A)

-- The pcbs in the queue of a semaphore are blocked.
pub queue_of-blocked :
    (a c : Ptr) (ds : List Desc) → has c (queue_of a ds) ≡ true → has c (blocked ds) ≡ true
queue_of-blocked a c [] m = m
queue_of-blocked a c (d ∷ ds) m =
    ground (arith, m, has-append c d.queue (blocked ds), queue_of-blocked a c ds)
