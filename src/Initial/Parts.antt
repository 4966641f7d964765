-- ===== src/Initial/Parts.antt =====
-- The parts of `main` of phase2/initial.c: the device semaphores and the first process.
use operating_system_cs.Base.{
  ℕ, zero, suc, ◌+◌, ◌<◌, ◌≤◌, ◌≡◌, refl, ap, ◌∙◌, List, [], ◌∷◌, false, arith, has, ==-refl, add32,
}
use operating_system_cs.Ring.{Ptr, null}
use operating_system_cs.Chain
use operating_system_cs.Chain.{Chain, elems}
use operating_system_cs.Kernel.{State, Kernel}
use operating_system_cs.Kernel.Const.{int_elem, device_sem_num, t9, sp, rambaseaddr, rambasesize}
use operating_system_cs.Kernel.Run.{Returns, Returns-Ran, ran, ok, ne_null}
use operating_system_cs.Pcb.Defs.{alloc_pcb, mk_empty_proc_q}
use operating_system_cs.Pcb.Free.{IsFree, alloc_pcb-first}
use operating_system_cs.Pcb.Queue.{IsProcQ}
use operating_system_cs.Pcb.Queue.Explicit.{links_run, insert_proc_q-run}
use operating_system_cs.Initial.{clear_device_sem, first_process}

-- The loop over the device semaphores writes only `int` cells.
pub clear_device_sem-words :
    (n : ℕ) (k : Kernel)
    → n ≤ device_sem_num
    → k.layout.device_sem + 196 < null
    → Returns (λ _ k'. k' ≡ record k { words = k'.words }) (clear_device_sem n k)
unfolding clear_device_sem
clear_device_sem-words zero k le fits = refl
clear_device_sem-words (suc n) k le fits =
    elim (Returns-Ran _ (clear_device_sem n k)
      (clear_device_sem-words n k (omega (arith, le)) fits)) [
        | ran b k1 runs same ↦
            simp
              (
                runs ∙ ap (ok b) same,
                ne_null (int_elem k.layout.device_sem n) (omega (arith, le, fits)),
              )
              refl
      ]

-- What the first process starts from.
pub record FirstState (k : Kernel) (s : State) : Type 0 where
  pub status : s.s_status ≡ 0x0800_0004
  pub pc : s.s_pc ≡ k.layout.test
  pub start : s.s_reg t9 ≡ k.layout.test
  pub stack : s.s_reg sp ≡ add32 (k.words rambaseaddr) (k.words rambasesize)

-- The pcb `x` is the only ready process and ready for its start.
pub record Started (x : Ptr) (xs : List Ptr) (k k' : Kernel) : Type 0 where
  pub ready : IsProcQ k' k'.ready_q (x ∷ [])
  pub free : IsFree k' xs
  pub state : FirstState k (k'.p_s x)
  pub new : has x xs ≡ false
  pub count : k'.process_count ≡ add32 k.process_count 1
  pub same : k' ≡ record k {
    p_next = k'.p_next;
    p_prev = k'.p_prev;
    p_prnt = k'.p_prnt;
    p_child = k'.p_child;
    p_next_sib = k'.p_next_sib;
    p_prev_sib = k'.p_prev_sib;
    p_s = k'.p_s;
    p_time = k'.p_time;
    p_sem_add = k'.p_sem_add;
    p_support_struct = k'.p_support_struct;
    pcb_free_h = k'.pcb_free_h;
    ready_q = k'.ready_q;
    process_count = k'.process_count;
  }

pub first_process-Started :
    (k : Kernel) (x : Ptr) (xs : List Ptr)
    → IsFree k (x ∷ xs)
    → Returns (λ _ k'. Started x xs k k') (first_process (record k { ready_q = null }))
unfolding first_process mk_empty_proc_q
first_process-Started k x xs f =
    elim (Returns-Ran _ (alloc_pcb (record k { ready_q = null }))
      (alloc_pcb-first (record k { ready_q = null }) x xs f)) [
        | ran p k1 runs (is_x, free1, blank, only) ↦
            let k1' = record k {
              p_next = k1.p_next;
              p_prev = k1.p_prev;
              p_prnt = k1.p_prnt;
              p_child = k1.p_child;
              p_next_sib = k1.p_next_sib;
              p_prev_sib = k1.p_prev_sib;
              p_s = k1.p_s;
              p_time = k1.p_time;
              p_sem_add = k1.p_sem_add;
              p_support_struct = k1.p_support_struct;
              pcb_free_h = k1.pcb_free_h;
              ready_q = null;
            } in
            elim (insert_proc_q-run k1' null x []
              (record { tail = refl; links = tt; distinct = tt; no_null = refl }) refl f.links.1) [
                | links_run tp n q runs2 (ring, is_p) out ↦
                    simp (runs ∙ ap (ok p) only.same, is_x, runs2, ne_null x f.links.1, ==-refl x)
                      record {
                        ready = ring;
                        free = record {
                          links = Chain.Links-frame k1.pcb_free_h xs free1.links (λ c m.
                              (out c (
                                ground
                                  (arith, m, f.distinct.0, ap (λ d. has d xs) {x = c} {y = x}))).0);
                          distinct = free1.distinct;
                        };
                        state = record {
                          status = simp (==-refl x) refl;
                          pc = simp (==-refl x) refl;
                          start = simp (==-refl x) refl;
                          stack = simp (==-refl x) refl;
                        };
                        new = f.distinct.0;
                        count = refl;
                        same = refl;
                      }
              ]
      ]
