-- ===== src/Adl.antt =====
-- phase5/delayDaemon.c: the active delay list, `DELAY` and the delay daemon.
pub mod Init
pub mod Empty
pub mod List
pub mod Insert
pub mod Enlist
pub mod Wake
use operating_system_cs.Base.{
  ℕ, zero, suc, ◌+◌, ◌&&◌, ◌||◌, if◌then◌else◌, ◌==◌, not, upd, add32, mul32, is_neg, sle,
}
use operating_system_cs.Ring.{Ptr, null}
use operating_system_cs.Kernel.Const.{maxproc, a1, generalexcept}
use operating_system_cs.Kernel.{State}
use operating_system_cs.Support.{Store}
use operating_system_cs.Support.Const.{maxsignedint, delay_sem}
use operating_system_cs.Support.Code.{
  Nucleus, Code, Action, pure, skip, get, put, load_from, store_to, syscall, no_fuel, ◌>>=◌, ◌>>◌,
}
use operating_system_cs.Support.Machine.{
  interrupts_off, interrupts_on, stck, passern, verho, ldst, slt, saved_state, saved_reg, set_saved,
}

abbrev pub get_d_next : Ptr → Code Ptr
get_d_next = load_from (λ s. s.d_next)

abbrev pub get_d_wake_time : Ptr → Code ℕ
get_d_wake_time = load_from (λ s. s.d_wake_time)

abbrev pub set_d_next : Ptr → Ptr → Action
set_d_next d v = store_to d (λ s. record s { d_next = upd s.d_next d v })

abbrev pub set_d_wake_time : Ptr → ℕ → Action
set_d_wake_time d v = store_to d (λ s. record s { d_wake_time = upd s.d_wake_time d v })

abbrev pub set_d_sup_struct : Ptr → Ptr → Action
set_d_sup_struct d v = store_to d (λ s. record s { d_sup_struct = upd s.d_sup_struct d v })

-- `freeDelayd`
unfoldable pub free_delayd : Ptr → Action
free_delayd d = do
  set_d_sup_struct d null
  head ← get (λ s. s.delayd_free_h)
  set_d_next d head
  set_d_wake_time d 0
  put (λ s. record s { delayd_free_h = d })

-- `allocDelayd`
unfoldable pub alloc_delayd : (wake_time : ℕ) → (current_support : Ptr) → Code Ptr
alloc_delayd wake_time current_support = do
  head ← get (λ s. s.delayd_free_h)
  if head == null then pure null else do
    next ← get_d_next head
    put (λ s. record s { delayd_free_h = next })
    set_d_next head null
    set_d_wake_time head wake_time
    set_d_sup_struct head current_support
    pure head

-- The loop of `traverseADL`, from `traverse`.
unfoldable pub traverse_adl_loop : ℕ → (wake_time : ℕ) → (traverse : Ptr) → Code Ptr
traverse_adl_loop zero wake_time traverse = λ _. no_fuel
traverse_adl_loop (suc fuel) wake_time traverse = do
  next ← get_d_next traverse
  wake ← get_d_wake_time next
  let rest = traverse_adl_loop fuel wake_time next
  if not (wake == maxsignedint) && slt wake wake_time then rest else pure traverse

-- `traverseADL`
unfoldable pub traverse_adl : ℕ → Code Ptr
traverse_adl wake_time = do
  head ← get (λ s. s.delayd_h)
  traverse_adl_loop (maxproc + 2) wake_time head

-- The part of `DELAY` that links the new descriptor.
unfoldable pub link_delayd : (wake_time : ℕ) → (new_delayd : Ptr) → Action
link_delayd wake_time new_delayd = do
  predecessor ← traverse_adl wake_time
  next ← get_d_next predecessor
  set_d_next new_delayd next
  set_d_next predecessor new_delayd

-- The end of `DELAY`, when the process is awake again.
unfoldable pub resume : Ptr → Action
resume sup = do
  interrupts_on
  st ← saved_state sup generalexcept
  let next : State = record st { s_pc = add32 st.s_pc 4 }
  set_saved sup generalexcept next
  ldst next

module _ (nucleus : Nucleus) where
  -- The part of `DELAY` that works on the lists, with the semaphore `m` of the list held.
  unfoldable pub enlist : (m : Ptr) → (wake_time : ℕ) → (sup : Ptr) → Action
  enlist m wake_time sup = do
    d ← alloc_delayd wake_time sup
    (if d == null then (do verho nucleus m; syscall nucleus 9 0 0 0; skip) else skip)
    link_delayd wake_time d

  -- `DELAY` up to the wait on the process' own semaphore.
  unfoldable pub sleep : Ptr → Action
  sleep sup = do
    seconds ← saved_reg sup a1
    let wake_time = mul32 seconds 1000000
    if is_neg wake_time || slt maxsignedint wake_time
        then (do syscall nucleus 9 0 0 0; skip)
        else skip
    m ← get (λ s. s.statics.adl_mutex)
    passern nucleus m
    enlist m wake_time sup
    interrupts_off
    verho nucleus m
    passern nucleus (delay_sem sup)
    skip

  -- `DELAY`
  unfoldable pub delay : Ptr → Action
  delay sup = sleep sup >> resume sup

  -- One round of the inner loop of `delay_daemon`: the first descriptor's process is woken.
  unfoldable pub wake_first : Action
  wake_first = do
    head ← get (λ s. s.delayd_h)
    d ← get_d_next head
    sup ← load_from (λ s. s.d_sup_struct) d
    verho nucleus (delay_sem sup)
    head' ← get (λ s. s.delayd_h)
    next ← get_d_next d
    set_d_next head' next
    free_delayd d

  -- The inner loop, with the time `curr_tod` read.
  unfoldable pub wake_due : ℕ → (curr_tod : ℕ) → Action
  wake_due zero curr_tod = λ _. no_fuel
  wake_due (suc fuel) curr_tod =
      let rest = wake_due fuel in
      do
        head ← get (λ s. s.delayd_h)
        next ← get_d_next head
        wake ← get_d_wake_time next
        if sle wake curr_tod then (do wake_first; now ← stck; rest now) else skip

  -- One round of the endless loop of `delay_daemon`.
  unfoldable pub daemon_round : Action
  daemon_round = do
    syscall nucleus 7 0 0 0
    m ← get (λ s. s.statics.adl_mutex)
    passern nucleus m
    now ← stck
    wake_due (maxproc + 2) now
    verho nucleus m
    skip

  -- `delay_daemon` for `rounds` rounds.
  unfoldable pub delay_daemon : (rounds : ℕ) → Action
  delay_daemon zero = λ _. no_fuel
  delay_daemon (suc rounds) = daemon_round >> delay_daemon rounds
