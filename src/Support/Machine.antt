-- ===== src/Support/Machine.antt =====
-- The processor's services (libumps) as the support level uses them.
use operating_system_cs.Base.{
  ℕ, ◌-◌, ◌/◌, ◌%◌, [], ◌∷◌, if◌then◌else◌, upd, word_mod, is_neg, sle, sub32, bit_and, bit_or,
  List, Bool, not,
}
use operating_system_cs.Ring.{Ptr}
use operating_system_cs.Kernel.{State}
use operating_system_cs.Kernel.Const.{timescaleaddr, int_elem, generalexcept, dev_sem_idx}
use operating_system_cs.Kernel.Machine.{set_reg}
use operating_system_cs.Support.Const.{iecbiton, iecbitoff}
use operating_system_cs.Support.Code.{
  Nucleus, Code, Action, load_state, left, no_fuel, get, put, syscall, done,
}

abbrev pub cell : Ptr → Code ℕ
cell a = get (λ s. s.words a)

abbrev pub set_cell : Ptr → ℕ → Action
set_cell a v = put (λ s. record s { words = upd s.words a v })

-- `setSTATUS(getSTATUS() & (~IECBITON))` and `setSTATUS(getSTATUS() | IECBITON)`
abbrev pub interrupts_off : Action
interrupts_off = put (λ s. record s { status = bit_and s.status iecbitoff })

abbrev pub interrupts_on : Action
interrupts_on = put (λ s. record s { status = bit_or s.status iecbiton })

-- `TLBWR` writes the pair of registers to some slot, `TLBCLR` clears all of them.
abbrev pub tlbwr : Action
tlbwr = put (λ s. record s { tlb = (s.cp0_entry_hi, s.cp0_entry_lo) ∷ s.tlb })

abbrev pub tlbclr : Action
tlbclr = put (λ s. record s { tlb = [] })

abbrev pub ldst : {A : Type 0} → State → Code A
ldst st s = left (load_state st) s

-- `a / b`, `a % b` and `a < b` on `int`, for a positive divisor: the quotient is rounded to 0.
abbrev pub sdiv32 : ℕ → ℕ → ℕ
sdiv32 a b = if is_neg a then sub32 0 ((word_mod - a) / b) else a / b

abbrev pub srem32 : ℕ → ℕ → ℕ
srem32 a b = if is_neg a then sub32 0 ((word_mod - a) % b) else a % b

abbrev pub slt : ℕ → ℕ → Bool
slt a b = not (sle b a)

-- `STCK`. A run that reads the clock more often than `clock` says is not followed further.
abbrev pub stck_from : List ℕ → Code ℕ
stck_from [] s = no_fuel
stck_from (t ∷ ts) s = done (sdiv32 t (s.words timescaleaddr)) (record s { clock = ts })

abbrev pub stck : Code ℕ
stck s = stck_from s.clock s

-- `sup->sup_exceptState[i]`, and a register of the state saved for general exceptions.
abbrev pub saved_state : Ptr → ℕ → Code State
saved_state sup i = get (λ s. s.sup_except_state sup i)

abbrev pub saved_reg : Ptr → ℕ → Code ℕ
saved_reg sup r = get (λ s. (s.sup_except_state sup generalexcept).s_reg r)

abbrev pub with_saved : (Ptr → ℕ → State) → Ptr → ℕ → State → Ptr → ℕ → State
with_saved f sup i st = upd f sup (upd (f sup) i st)

abbrev pub set_saved : Ptr → ℕ → State → Action
set_saved sup i st =
    put (λ s. record s { sup_except_state = with_saved s.sup_except_state sup i st })

abbrev pub set_saved_reg : Ptr → ℕ → ℕ → Action
set_saved_reg sup r v = put (λ s. record s {
  sup_except_state =
      with_saved s.sup_except_state sup generalexcept
        (set_reg (s.sup_except_state sup generalexcept) r v);
})

-- `SYSCALL(PASSERN, &(mutex[i]), 0, 0)` and `SYSCALL(VERHO, &(mutex[i]), 0, 0)`
module _ (nucleus : Nucleus) where
  abbrev pub passern : Ptr → Code ℕ
  passern a = syscall nucleus 3 a 0 0

  abbrev pub verho : Ptr → Code ℕ
  verho a = syscall nucleus 4 a 0 0

  -- `SYSCALL(IOWAIT, line, devNo, termRead)`
  abbrev pub iowait : ℕ → ℕ → ℕ → Code ℕ
  iowait = syscall nucleus 5

  -- `&(mutex[devSemIdx(line, devNo, termRead)])`
  abbrev pub dev_mutex : ℕ → ℕ → ℕ → Code Ptr
  dev_mutex line dev term_read =
      get (λ s. int_elem s.statics.mutex (dev_sem_idx line dev term_read))
