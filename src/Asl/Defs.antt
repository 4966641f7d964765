-- ===== src/Asl/Defs.antt =====
-- The operations of phase1/asl.c. A result of `insertBlocked` is the Boolean that the C function
-- returns as TRUE or FALSE.
use operating_system_cs.Base.{
  ℕ, zero, suc, ◌+◌, Bool, true, false, not, ◌&&◌, ◌||◌, if◌then◌else◌, ◌==◌, ltb, upd,
}
use operating_system_cs.Ring.{Ptr, null}
use operating_system_cs.Kernel.{Kernel}
use operating_system_cs.Kernel.Const.{maxproc, semd_size, array_elem}
use operating_system_cs.Kernel.Run.{out_of_fuel, Cmd, pure, ◌>>=◌, ◌>>◌, load, store, read, modify}
use operating_system_cs.Pcb.Defs.{
  mk_empty_proc_q, empty_proc_q, insert_proc_q, remove_proc_q, out_proc_q, get_next,
}

abbrev pub get_s_next : Ptr → Cmd Ptr
get_s_next = load (λ k. k.s_next)

abbrev pub get_s_sem_add : Ptr → Cmd Ptr
get_s_sem_add = load (λ k. k.s_sem_add)

abbrev pub get_s_proc_q : Ptr → Cmd Ptr
get_s_proc_q = load (λ k. k.s_proc_q)

abbrev pub set_s_next : Ptr → Ptr → Cmd (Unit {0})
set_s_next d v = store d (λ k. record k { s_next = upd k.s_next d v })

abbrev pub set_s_sem_add : Ptr → Ptr → Cmd (Unit {0})
set_s_sem_add d v = store d (λ k. record k { s_sem_add = upd k.s_sem_add d v })

abbrev pub set_s_proc_q : Ptr → Ptr → Cmd (Unit {0})
set_s_proc_q d v = store d (λ k. record k { s_proc_q = upd k.s_proc_q d v })

abbrev pub get_sem_add : Ptr → Cmd Ptr
get_sem_add = load (λ k. k.p_sem_add)

abbrev pub set_sem_add : Ptr → Ptr → Cmd (Unit {0})
set_sem_add p v = store p (λ k. record k { p_sem_add = upd k.p_sem_add p v })

-- `&(semdTable[i])`, and the address that marks the tail dummy.
abbrev pub semd_elem : Kernel → ℕ → Ptr
semd_elem k i = array_elem k.layout.semd_table semd_size i

abbrev pub sentinel : Kernel → Ptr
sentinel k = semd_elem k (maxproc + 1)

unfoldable pub free_semd : Ptr → Cmd (Unit {0})
free_semd d = do
  set_s_proc_q d null
  head ← read (λ k. k.semd_free_h)
  set_s_next d head
  modify (λ k. record k { semd_free_h = d })

unfoldable pub alloc_semd : Ptr → Cmd Ptr
unfolding mk_empty_proc_q
alloc_semd sem_add = do
  head ← read (λ k. k.semd_free_h)
  if head == null then pure null else do
    next ← get_s_next head
    modify (λ k. record k { semd_free_h = next })
    set_s_next head null
    set_s_sem_add head sem_add
    set_s_proc_q head mk_empty_proc_q
    pure head

-- The first `n` rounds of the loop that links the descriptors of the table.
unfoldable pub init_asl_loop : ℕ → Cmd (Unit {0})
init_asl_loop zero = pure tt
init_asl_loop (suc n) = do
  init_asl_loop n
  modify (λ k. record k { s_next = upd k.s_next (semd_elem k n) (semd_elem k (n + 1)) })

unfoldable pub init_asl : Cmd (Unit {0})
init_asl = do
  modify (λ k. record k { semd_free_h = semd_elem k 0 })
  init_asl_loop (maxproc + 1)
  modify (λ k. record k { s_next = upd k.s_next (semd_elem k (maxproc + 1)) null })
  head_dummy ← alloc_semd 0
  tail_add ← read sentinel
  tail_dummy ← alloc_semd tail_add
  modify (λ k. record k { semd_h = tail_dummy })
  head ← read (λ k. k.semd_h)
  set_s_next head_dummy head
  modify (λ k. record k { semd_h = head_dummy })

-- The loop of `traverseASL`, from `traverse`.
unfoldable pub traverse_asl_loop : ℕ → (sem_add traverse : Ptr) → Cmd Ptr
traverse_asl_loop zero sem_add traverse = λ _. out_of_fuel
traverse_asl_loop (suc fuel) sem_add traverse = do
  next ← get_s_next traverse
  add ← get_s_sem_add next
  tail_add ← read sentinel
  let rest = traverse_asl_loop fuel sem_add next
  if not (add == tail_add) && ltb add sem_add then rest else pure traverse

unfoldable pub traverse_asl : Ptr → Cmd Ptr
traverse_asl sem_add = do head ← read (λ k. k.semd_h); traverse_asl_loop (maxproc + 2) sem_add head

-- The end of `insertBlocked`: the pcb joins the queue of the descriptor behind `predecessor`.
unfoldable pub enqueue_blocked : (predecessor sem_add p : Ptr) → Cmd Bool
enqueue_blocked predecessor sem_add p = do
  d ← get_s_next predecessor
  tp ← get_s_proc_q d
  tp' ← insert_proc_q tp p
  set_s_proc_q d tp'
  set_sem_add p sem_add
  pure false

unfoldable pub insert_blocked : (sem_add p : Ptr) → Cmd Bool
insert_blocked sem_add p = do
  predecessor ← traverse_asl sem_add
  next ← get_s_next predecessor
  add ← get_s_sem_add next
  if add == sem_add then enqueue_blocked predecessor sem_add p else do
    new_sem ← alloc_semd sem_add
    if new_sem == null then pure true else do
      next' ← get_s_next predecessor
      set_s_next new_sem next'
      set_s_next predecessor new_sem
      enqueue_blocked predecessor sem_add p

-- The end of `removeBlocked`: a descriptor whose queue is empty is freed.
unfoldable pub release_semd : (predecessor : Ptr) → Cmd (Unit {0})
unfolding empty_proc_q
release_semd predecessor = do
  d ← get_s_next predecessor
  tp ← get_s_proc_q d
  if empty_proc_q tp
      then (do next ← get_s_next d; set_s_next predecessor next; free_semd d)
      else pure tt

unfoldable pub remove_blocked : (sem_add : Ptr) → Cmd Ptr
remove_blocked sem_add = do
  predecessor ← traverse_asl sem_add
  d ← get_s_next predecessor
  add ← get_s_sem_add d
  if not (add == sem_add) then pure null else do
    tp ← get_s_proc_q d
    (result_pcb, tp') ← remove_proc_q tp
    set_s_proc_q d tp'
    if result_pcb == null
        then pure null
        else do set_sem_add result_pcb null; release_semd predecessor; pure result_pcb

unfoldable pub out_blocked : Ptr → Cmd Ptr
unfolding empty_proc_q
out_blocked p = do
  sem_add ← get_sem_add p
  predecessor ← traverse_asl sem_add
  d ← get_s_next predecessor
  add ← get_s_sem_add d
  tp ← get_s_proc_q d
  if not (add == sem_add) || empty_proc_q tp
      then pure null
      else do (result_pcb, tp') ← out_proc_q tp p; set_s_proc_q d tp'; pure result_pcb

unfoldable pub head_blocked : (sem_add : Ptr) → Cmd Ptr
unfolding empty_proc_q
head_blocked sem_add = do
  predecessor ← traverse_asl sem_add
  d ← get_s_next predecessor
  add ← get_s_sem_add d
  tp ← get_s_proc_q d
  if not (add == sem_add) || empty_proc_q tp then pure null else get_next tp
