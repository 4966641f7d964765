-- ===== src/Instantiator/Ready.antt =====
-- The state, contexts and page table of a user process when `init_Uproc` (phase3/initProc.c) calls SYS1.
use operating_system_cs.Base.{
  ℕ, zero, suc, ◌+◌, ◌-◌, ◌<◌, ◌≤◌, ◌≡◌, ◌∷◌, List, refl, ap, ◌∙◌, upd, upd-same, ==-refl, shl,
}
use operating_system_cs.Ring.{Ptr}
use operating_system_cs.Kernel.Const.{t9, sp, array_elem, pgfaultexcept, generalexcept}
use operating_system_cs.Support.{Call, Statics, Store}
use operating_system_cs.Support.Const.{
  asid_shift, pte_elem, uprocstartaddr, uprocstack, stack_tlb_top, stack_gen_top, delay_sem,
  support_size,
}
use operating_system_cs.Support.Code.{Nucleus, Answer, Out, back, gone, answered, syscall, after}
use operating_system_cs.Support.Logic.{Finishes}
use operating_system_cs.Vm.Fault.{absent_lo}
use operating_system_cs.Instantiator.{init_uproc, uproc_start, pass_up_context, set_contexts}
use operating_system_cs.Instantiator.PageTable.{
  wanted_hi, filled, filled-at, init_uproc_pg_table-filled,
}

-- The process `a` with the state at `st` and the support structure `sup` can be made: it starts at its
-- first page in its own address space, all pages are missing, exceptions go to the support level's
-- handlers, each on its own stack, and nobody has woken it.
pub record IsReady (s : Store) (st sup : Ptr) (a : ℕ) : Type 0 where
  pub pc : (s.states st).s_pc ≡ uprocstartaddr
  pub t9_at : (s.states st).s_reg t9 ≡ uprocstartaddr
  pub stack : (s.states st).s_reg sp ≡ uprocstack
  pub space : (s.states st).s_entry_hi ≡ shl a asid_shift
  pub own : s.sup_asid sup ≡ a
  pub pages :
      (k : ℕ)
      → k < 32
      → (s.entry_hi (pte_elem sup k) ≡ wanted_hi a k) × (s.entry_lo (pte_elem sup k) ≡ absent_lo)
  pub pager :
      s.sup_except_context sup pgfaultexcept
      ≡ pass_up_context s.statics.tlb_exception_handler (stack_tlb_top sup)
  pub general :
      s.sup_except_context sup generalexcept
      ≡ pass_up_context s.statics.general_exception_handler (stack_gen_top sup)
  pub awake : s.words (delay_sem sup) ≡ 0

abbrev pub CreatedQuietly : Store → Answer → Type 0
CreatedQuietly s (back v s') =
    (v ≡ 0) × (s'.statics ≡ s.statics) × (s'.sup_asid ≡ s.sup_asid) × (s'.calls ≡ s.calls)
CreatedQuietly s (gone s') = ⊥

-- SYS1 with a process that can be made and a number from 1 to 8 returns 0, and other processes leave
-- the numbers of all processes alone.
abbrev pub Creates : Nucleus → Type 0
Creates nucleus =
    (c : Call) (s : Store) (a : ℕ)
    → c.number ≡ 1
    → 0 < a
    → a ≤ 8
    → IsReady s c.arg1 c.arg2 a
    → CreatedQuietly s (nucleus c s)

-- SYS1 for the process `i`.
abbrev pub create_call : Statics → ℕ → Call
create_call st i = record {
  number = 1;
  arg1 = st.init_state;
  arg2 = array_elem st.init_support_arr support_size (i - 1);
  arg3 = 0;
}

-- SYS1 for the processes `i` to `i + n - 1`, the last one first, before `cs`.
abbrev pub creations : Statics → (n i : ℕ) → List Call → List Call
creations st zero i cs = cs
creations st (suc n) i cs = creations st n (i + 1) (create_call st i ∷ cs)

-- The memory with the state, the number and the contexts of the process `a`, and at SYS1.
abbrev pub numbered : Store → (sup : Ptr) → (a : ℕ) → Store
numbered s sup a =
    let start = s.statics.init_state in
    record (set_contexts sup s) {
      states = upd s.states start (uproc_start (s.states start) a);
      sup_asid = upd s.sup_asid sup a;
      words = upd s.words (delay_sem sup) 0;
    }

pub prepared : Store → (sup : Ptr) → (a : ℕ) → Store
prepared s sup a = filled sup (numbered s sup a)

pub prepared-IsReady :
    (s : Store) (sup : Ptr) (a : ℕ) (c : Call)
    → IsReady (record (prepared s sup a) { calls = c ∷ s.calls }) s.statics.init_state sup a
unfolding prepared filled set_contexts
prepared-IsReady s sup a c = record {
  pc = simp (==-refl s.statics.init_state) refl;
  t9_at = simp (==-refl s.statics.init_state) refl;
  stack = simp (==-refl s.statics.init_state) refl;
  space = simp (==-refl s.statics.init_state) refl;
  own = upd-same s.sup_asid sup a;
  pages = λ k lt.
      let p = filled-at sup (numbered s sup a) k lt in
      (p.0 ∙ ap (λ b. wanted_hi b k) (upd-same s.sup_asid sup a), p.1);
  pager = simp (==-refl sup) refl;
  general = simp (==-refl sup) refl;
  awake = upd-same s.words (delay_sem sup) 0;
}

pub init_uproc-prepared :
    (nucleus : Nucleus) (s : Store) (sup : Ptr) (a : ℕ)
    → init_uproc nucleus sup a s ≡ (
        let c : Call = record { number = 1; arg1 = s.statics.init_state; arg2 = sup; arg3 = 0 } in
        answered (nucleus c (record (prepared s sup a) { calls = c ∷ s.calls })))
unfolding init_uproc prepared set_contexts filled
init_uproc-prepared nucleus s sup a =
    ap (λ (o : Out (Unit {0})). after o (λ _. syscall nucleus 1 s.statics.init_state sup 0))
      (init_uproc_pg_table-filled sup (numbered s sup a))

-- One round of the loop.
pub created :
    (s : Store) (sup : Ptr) (a : ℕ) (c : Call) (o : Answer)
    → CreatedQuietly (record (prepared s sup a) { calls = c ∷ s.calls }) o
    → Finishes
        (λ v s'.
          (v ≡ 0)
          × (s'.statics ≡ s.statics)
          × (s'.sup_asid ≡ upd s.sup_asid sup a)
          × (s'.calls ≡ c ∷ s.calls))
        (answered o)
unfolding prepared filled set_contexts
created s sup a c (back v s') h = h
created s sup a c (gone s') h = absurd h
