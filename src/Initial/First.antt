-- ===== src/Initial/First.antt =====
-- What `main` of phase2/initial.c leaves to the first process.
use operating_system_cs.Base.{
  ◌+◌, ◌-◌, ◌<◌, ◌≡◌, refl, sym, ap, ◌∙◌, List, [], ◌∷◌, arith, has, upd, add32, mul32,
}
use mathlib.Core.Path.{subst}
use operating_system_cs.Ring.{Ptr, null}
use operating_system_cs.Chain
use operating_system_cs.Chain.{Chain, elems}
use operating_system_cs.Kernel.{Kernel}
use operating_system_cs.Kernel.Const.{
  maxproc, pcb_size, array_elem, device_sem_num, t9, sp, rambaseaddr, rambasesize,
}
use operating_system_cs.Kernel.Run.{Exit, Leaves, Leaves-mono, Returns-Ran, ran, ok, ldst}
use operating_system_cs.Pcb.Defs.{init_pcbs, mk_empty_proc_q, pcb_elem}
use operating_system_cs.Pcb.Free.{IsFree, init_pcbs-pcb_list, pcb_list}
use operating_system_cs.Pcb.Queue.{IsProcQ}
use operating_system_cs.Asl.Defs.{init_asl, semd_elem}
use operating_system_cs.Asl.List.{IsAsl}
use operating_system_cs.Asl.Frame.{IsAsl-outer, outer}
use operating_system_cs.Asl.Init.{free_table, init_asl-IsAsl}
use operating_system_cs.Scheduler.Defs.{scheduler}
use operating_system_cs.Scheduler.Dispatch.{Dispatched, scheduler-dispatch}
use operating_system_cs.Initial.{main, set_passupvector, clear_device_sem, first_process}
use operating_system_cs.Initial.Parts.{
  FirstState, Started, first_process-Started, clear_device_sem-words,
}

-- The nucleus runs its first process, at `test`, and nothing else exists.
pub record Booted (k : Kernel) (e : Exit) (k' : Kernel) : Type 0 where
  pub exit : e ≡ ldst (k'.p_s (pcb_elem k 0))
  pub current : k'.current_p ≡ pcb_elem k 0
  pub ready : IsProcQ k' k'.ready_q []
  pub state : FirstState k' (k'.p_s (pcb_elem k 0))
  pub processes : k'.process_count ≡ 1
  pub soft_blocked : k'.soft_block_count ≡ 0
  pub free : IsFree k' (elems k.layout.maxproc_pcbs pcb_size 1 (maxproc - 1))
  pub is_asl : IsAsl k' (semd_elem k 1) [] (free_table k)
  pub layout : k'.layout ≡ k.layout

-- An empty active list does not depend on the pcbs.
empty_list-IsAsl :
    (k k' : Kernel) (t : Ptr) (fs : List Ptr)
    → k'.semd_h ≡ k.semd_h
    → k'.s_next ≡ k.s_next
    → k'.s_sem_add ≡ k.s_sem_add
    → k'.semd_free_h ≡ k.semd_free_h
    → k'.layout ≡ k.layout
    → IsAsl k t [] fs
    → IsAsl k' t [] fs
empty_list-IsAsl k k' t fs head next sem free lay A = record {
  head_not_null = simp head A.head_not_null;
  head_sem = simp head (ap (λ g. g k.semd_h) sem ∙ A.head_sem);
  tail_not_null = A.tail_not_null;
  tail_sem = simp lay (ap (λ g. g t) sem ∙ A.tail_sem);
  sentinel_pos = simp lay A.sentinel_pos;
  active = simp head (ap (λ g. g k.semd_h) next ∙ A.active);
  free_chain = simp (next, free) A.free_chain;
  apart = simp head A.apart;
  count = A.count;
}

-- From the end of `main` on.
module _ (k k4 f : Kernel) (lay : k4.layout ≡ k.layout)
    (asl : IsAsl k4 (semd_elem k 1) [] (free_table k)) (none : k4.process_count ≡ 0)
    (soft : k4.soft_block_count ≡ 0)
    (st : Started (pcb_elem k 0) (elems k.layout.maxproc_pcbs pcb_size 1 (maxproc - 1)) k4 f) where
  abbrev x : Ptr
  x = pcb_elem k 0

  abbrev xs : List Ptr
  xs = elems k.layout.maxproc_pcbs pcb_size 1 (maxproc - 1)

  started-IsAsl : IsAsl f (semd_elem k 1) [] (free_table k)
  started-IsAsl =
      empty_list-IsAsl k4 f (semd_elem k 1) (free_table k) (ap (λ z. z.semd_h) st.same)
        (ap (λ z. z.s_next) st.same) (ap (λ z. z.s_sem_add) st.same)
        (ap (λ z. z.semd_free_h) st.same) (ap (λ z. z.layout) st.same) asl

  booted : (e : Exit) (k' : Kernel) → Dispatched f (x ∷ []) e k' → Booted k e k'
  booted e k' h =
      let same_layout : k'.layout ≡ k4.layout =
        ap (λ (z : Kernel). z.layout) h.5 ∙ ap (λ (z : Kernel). z.layout) st.same in
      let same_words : k'.words ≡ k4.words =
        ap (λ (z : Kernel). z.words) h.5 ∙ ap (λ (z : Kernel). z.words) st.same in
      record {
        exit = h.0 ∙ ap ldst (ap (λ g. g x) (sym h.4));
        current = h.1;
        ready = h.2;
        state = record {
          status = ap (λ g. (g x).s_status) h.4 ∙ st.state.status;
          pc = ap (λ g. (g x).s_pc) h.4 ∙ st.state.pc ∙ ap (λ l. l.test) (sym same_layout);
          start =
              ap (λ g. (g x).s_reg t9) h.4 ∙ st.state.start ∙ ap (λ l. l.test) (sym same_layout);
          stack =
              ap (λ g. (g x).s_reg sp) h.4
              ∙ st.state.stack
              ∙ ap (λ w. add32 (w rambaseaddr) (w rambasesize)) (sym same_words);
        };
        processes = ap (λ (z : Kernel). z.process_count) h.5 ∙ st.count ∙ ap (λ n. add32 n 1) none;
        soft_blocked =
            ap (λ (z : Kernel). z.soft_block_count) h.5
            ∙ ap (λ (z : Kernel). z.soft_block_count) st.same
            ∙ soft;
        free =
            subst (λ p. Chain k'.p_next p xs) (ap (λ (z : Kernel). z.pcb_free_h) (sym h.5))
              (record {
                links = Chain.Links-frame f.pcb_free_h xs st.free.links (λ c m.
                    (h.6 c (ground (arith, m, st.new, ap (λ d. has d xs) {x = c} {y = x}))).0);
                distinct = st.free.distinct;
              });
        is_asl =
            IsAsl-outer f k' (semd_elem k 1) [] (free_table k) (h.5 ∙ ap (λ z. outer f z) (sym h.5))
              (λ c m. cc) started-IsAsl;
        layout = same_layout ∙ lay;
      }

  boots : Leaves (Booted k) (scheduler f)
  boots =
      Leaves-mono (Dispatched f (x ∷ [])) (Booted k) (scheduler f)
        (scheduler-dispatch f x [] st.ready) (λ e k' h. booted e k' h)

-- `main` initialises both tables and hands the processor to the first process, which starts at
-- `test` in kernel mode with the timer enabled and its stack at the top of the RAM, if the static
-- tables lie below `NULL`.
pub main-Booted :
    (k : Kernel)
    → array_elem k.layout.maxproc_pcbs pcb_size maxproc < null
    → semd_elem k (maxproc + 1) < null
    → k.layout.device_sem + 196 < null
    → Leaves (Booted k) (main k)
unfolding main set_passupvector mk_empty_proc_q elems
main-Booted k pcbs semds sems =
    let w =
      upd
        (upd (upd (upd k.words 0x0FFF_F900 k.layout.u_tlb_refill_handler) 0x0FFF_F904 0x2000_1000)
          0x0FFF_F908 k.layout.exception_handler)
        0x0FFF_F90C 0x2000_1000 in
    let k1 = record k { words = w } in
    elim (Returns-Ran _ (init_asl k1) (init_asl-IsAsl k1 semds)) [
      | ran b a runs1 (asl, same1) ↦
          let k2 = record k1 {
            s_next = a.s_next;
            s_sem_add = a.s_sem_add;
            s_proc_q = a.s_proc_q;
            semd_free_h = a.semd_free_h;
            semd_h = a.semd_h;
          } in
          elim (Returns-Ran _ (init_pcbs k2) (init_pcbs-pcb_list k2 pcbs)) [
            | ran b2 p runs2 (free2, same2) ↦
                let k3 = record k2 {
                  p_next = p.p_next;
                  pcb_free_h = array_elem k.layout.maxproc_pcbs pcb_size 0;
                  process_count = 0;
                  soft_block_count = 0;
                  ready_q = null;
                  current_p = null;
                } in
                elim (Returns-Ran _ (clear_device_sem device_sem_num k3)
                  (clear_device_sem-words device_sem_num k3 (omega arith) sems)) [
                    | ran b3 c runs3 same3 ↦
                        let k4 = record k3 {
                          words = upd c.words 0x1000_0020 (mul32 100000 (c.words 0x1000_0024));
                        } in
                        elim (Returns-Ran _ (first_process k4) (
                          first_process-Started k4 (pcb_elem k 0)
                            (elems k.layout.maxproc_pcbs pcb_size 1 (maxproc - 1))
                            (subst (λ z. IsFree z (pcb_list k)) same2 free2))) [
                              | ran b4 f runs4 st ↦
                                  simp
                                    (
                                      runs1 ∙ ap (ok b) same1,
                                      runs2 ∙ ap (ok b2) same2,
                                      runs3 ∙ ap (ok b3) same3,
                                      runs4,
                                    )
                                    (boots k k4 f refl
                                      (empty_list-IsAsl a k4 (semd_elem k 1) (free_table k) refl
                                        refl refl refl (ap (λ (z : Kernel). z.layout) (sym same1))
                                        asl)
                                      refl refl st)
                            ]
                  ]
          ]
    ]
