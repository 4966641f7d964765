-- ===== src/Adl/Init.antt =====
-- `initADL` of phase5/delayDaemon.c.
use operating_system_cs.Base.{ℕ, zero, suc, ◌+◌, upd, add32, sub32, bit_and, bit_or, shl}
use operating_system_cs.Ring.{Ptr, null}
use operating_system_cs.Kernel.{State}
use operating_system_cs.Kernel.Const.{
  maxproc, array_elem, t9, sp, rambaseaddr, rambasesize, pagesize, iepbiton, kupbitoff, ipbits,
}
use operating_system_cs.Kernel.Machine.{set_reg}
use operating_system_cs.Support.{Store}
use operating_system_cs.Support.Const.{delayd_size, maxsignedint, minus_one, asid_shift}
use operating_system_cs.Support.Code.{Nucleus, Action, skip, get, put, syscall, ◌>>=◌, ◌>>◌}
use operating_system_cs.Support.Machine.{cell, set_cell}
use operating_system_cs.Adl.{alloc_delayd, set_d_next}

-- `&(delaydTable[i])`
abbrev pub delayd_elem : Store → ℕ → Ptr
delayd_elem s i = array_elem s.statics.delayd_table delayd_size i

-- The first `n` rounds of the loop that links the descriptors of the table.
unfoldable pub link_table : ℕ → Store → Store
link_table zero s = s
link_table (suc n) s =
    let rest = link_table n s in
    record rest { d_next = upd rest.d_next (delayd_elem s n) (delayd_elem s (n + 1)) }

-- The lists of `initADL`.
unfoldable pub make_adl : Action
make_adl = do
  put (λ s. record s { delayd_h = null })
  m ← get (λ s. s.statics.adl_mutex)
  set_cell m 1
  put (λ s. record s { delayd_free_h = delayd_elem s 0 })
  put (link_table (maxproc + 1))
  put (λ s. record s { d_next = upd s.d_next (delayd_elem s (maxproc + 1)) null })
  head_dummy ← alloc_delayd minus_one null
  tail_dummy ← alloc_delayd maxsignedint null
  set_d_next head_dummy tail_dummy
  put (λ s. record s { delayd_h = head_dummy })

-- The state in which the daemon starts; other registers hold what the stack holds.
abbrev pub daemon_start : State → (daemon stack : Ptr) → State
daemon_start st daemon stack =
    let regs : State = set_reg (set_reg st t9 daemon) sp stack in
    record regs {
      s_pc = daemon;
      s_status = bit_or (bit_and iepbiton kupbitoff) ipbits;
      s_entry_hi = shl 0 asid_shift;
    }

module _ (nucleus : Nucleus) where
  -- `initADL`
  unfoldable pub init_adl : Action
  init_adl = do
    make_adl
    base ← cell rambaseaddr
    size ← cell rambasesize
    daemon ← get (λ s. s.statics.delay_daemon)
    a ← get (λ s. s.statics.daemon_state)
    put (λ s. record s {
      states = upd s.states a (daemon_start (s.states a) daemon (sub32 (add32 base size) pagesize));
    })
    syscall nucleus 1 a null 0
    skip
