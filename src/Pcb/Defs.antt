-- ===== src/Pcb/Defs.antt =====
-- phase1/pcb.c: the free list of process control blocks and the process queues. A function that takes the address of a tail pointer (`pcb_PTR *tp`) takes the value of
-- that pointer and returns the new value; the caller writes it back.
use operating_system_cs.Base.{ℕ, zero, suc, ◌+◌, ◌-◌, Bool, if◌then◌else◌, ◌==◌, upd}
use operating_system_cs.Ring.{Ptr, null}
use operating_system_cs.Kernel.{Kernel}
use operating_system_cs.Kernel.Const.{maxproc, state_reg_num, pcb_size, array_elem}
use operating_system_cs.Kernel.Run.{out_of_fuel, Cmd, pure, ◌>>=◌, ◌>>◌, load, store, read, modify}

-- `p->p_next = v` and so on for the other links.
abbrev pub set_next : Ptr → Ptr → Cmd (Unit {0})
set_next p v = store p (λ k. record k { p_next = upd k.p_next p v })

abbrev pub set_prev : Ptr → Ptr → Cmd (Unit {0})
set_prev p v = store p (λ k. record k { p_prev = upd k.p_prev p v })

abbrev pub set_prnt : Ptr → Ptr → Cmd (Unit {0})
set_prnt p v = store p (λ k. record k { p_prnt = upd k.p_prnt p v })

abbrev pub set_child : Ptr → Ptr → Cmd (Unit {0})
set_child p v = store p (λ k. record k { p_child = upd k.p_child p v })

abbrev pub set_next_sib : Ptr → Ptr → Cmd (Unit {0})
set_next_sib p v = store p (λ k. record k { p_next_sib = upd k.p_next_sib p v })

abbrev pub set_prev_sib : Ptr → Ptr → Cmd (Unit {0})
set_prev_sib p v = store p (λ k. record k { p_prev_sib = upd k.p_prev_sib p v })

abbrev pub get_next : Ptr → Cmd Ptr
get_next = load (λ k. k.p_next)

abbrev pub get_prev : Ptr → Cmd Ptr
get_prev = load (λ k. k.p_prev)

abbrev pub get_prnt : Ptr → Cmd Ptr
get_prnt = load (λ k. k.p_prnt)

abbrev pub get_child : Ptr → Cmd Ptr
get_child = load (λ k. k.p_child)

abbrev pub get_next_sib : Ptr → Cmd Ptr
get_next_sib = load (λ k. k.p_next_sib)

abbrev pub get_prev_sib : Ptr → Cmd Ptr
get_prev_sib = load (λ k. k.p_prev_sib)

unfoldable pub free_pcb : Ptr → Cmd (Unit {0})
free_pcb p = do
  head ← read (λ k. k.pcb_free_h)
  set_next p head
  modify (λ k. record k { pcb_free_h = p })

-- The loop that clears `s_reg[i]` for `i` below `n`.
unfoldable pub clear_regs : ℕ → (ℕ → ℕ) → ℕ → ℕ
clear_regs zero regs = regs
clear_regs (suc n) regs = upd (clear_regs n regs) n 0

unfoldable pub alloc_pcb : Cmd Ptr
alloc_pcb = do
  head ← read (λ k. k.pcb_free_h)
  if head == null then pure null else do
    next ← get_next head
    modify (λ k. record k { pcb_free_h = next })
    set_child head null
    set_next head null
    set_prev head null
    set_prnt head null
    set_next_sib head null
    set_prev_sib head null
    modify (λ k. record k {
      p_s = upd k.p_s head (record {
        s_entry_hi = 0;
        s_cause = 0;
        s_status = 0;
        s_pc = 0;
        s_reg = clear_regs state_reg_num (k.p_s head).s_reg;
      });
    })
    modify (λ k. record k { p_time = upd k.p_time head 0 })
    modify (λ k. record k { p_sem_add = upd k.p_sem_add head null })
    modify (λ k. record k { p_support_struct = upd k.p_support_struct head null })
    pure head

-- `&(MAXPROC_pcbs[i])`
abbrev pub pcb_elem : Kernel → ℕ → Ptr
pcb_elem k i = array_elem k.layout.maxproc_pcbs pcb_size i

-- The first `n` rounds of the loop that links each pcb to the next one of the array.
unfoldable pub init_pcbs_loop : ℕ → Cmd (Unit {0})
init_pcbs_loop zero = pure tt
init_pcbs_loop (suc n) = do
  init_pcbs_loop n
  modify (λ k. record k { p_next = upd k.p_next (pcb_elem k n) (pcb_elem k (n + 1)) })

unfoldable pub init_pcbs : Cmd (Unit {0})
init_pcbs = do
  modify (λ k. record k { pcb_free_h = pcb_elem k 0 })
  init_pcbs_loop (maxproc - 1)
  modify (λ k. record k { p_next = upd k.p_next (pcb_elem k (maxproc - 1)) null })

unfoldable pub mk_empty_proc_q : Ptr
mk_empty_proc_q = null

unfoldable pub empty_proc_q : Ptr → Bool
empty_proc_q tp = tp == null

unfoldable pub insert_proc_q : Ptr → Ptr → Cmd Ptr
unfolding empty_proc_q
insert_proc_q tp p = if empty_proc_q tp then (do set_next p p; set_prev p p; pure p) else do
  head ← get_next tp
  set_next p head
  set_prev p tp
  head' ← get_next tp
  set_prev head' p
  set_next tp p
  pure p

-- The removed element, and the tail pointer.
unfoldable pub remove_proc_q : Ptr → Cmd (Ptr × Ptr)
remove_proc_q tp = if tp == null then pure (null, tp) else do
  rm ← get_next tp
  second ← get_next rm
  set_next tp second
  second' ← get_next rm
  set_prev second' tp
  pure (rm, if rm == tp then null else tp)

-- `while((traverse != p) && (traverse->p_next != (*tp)))`; the result is `traverse`.
unfoldable pub out_proc_q_loop : ℕ → (tp p traverse : Ptr) → Cmd Ptr
out_proc_q_loop zero tp p traverse = λ _. out_of_fuel
out_proc_q_loop (suc fuel) tp p traverse =
    let step : Cmd Ptr = (do
      next ← get_next traverse
      if next == tp then pure traverse else out_proc_q_loop fuel tp p next) in
    if traverse == p then pure traverse else step

-- What `outProcQ` does once the element is found.
unfoldable pub unlink_proc_q : Ptr → Ptr → Cmd (Ptr × Ptr)
unlink_proc_q tp p = do
  next ← get_next p
  prev ← get_prev p
  set_prev next prev
  set_next prev next
  tail ← get_prev p
  let tp' = if tp == p then (if tail == p then null else tail) else tp
  set_prev p null
  set_next p null
  pure (p, tp')

unfoldable pub out_proc_q : Ptr → Ptr → Cmd (Ptr × Ptr)
out_proc_q tp p = if tp == null then pure (null, tp) else do
  traverse ← out_proc_q_loop (maxproc + 1) tp p tp
  if traverse == p then unlink_proc_q tp p else pure (null, tp)

unfoldable pub head_proc_q : Ptr → Cmd Ptr
head_proc_q tp = if tp == null then pure null else get_next tp
