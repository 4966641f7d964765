-- ===== src/Pcb/Tree.antt =====
-- The process trees of phase1/pcb.c: the children of a pcb are a circular list through
-- `p_next_sib` and `p_prev_sib`, reached by the tail pointer `p_child` of the parent.
pub mod Children
pub mod Out
use operating_system_cs.Base.{ℕ, zero, suc, ◌+◌, Bool, if◌then◌else◌, ◌==◌}
use operating_system_cs.Ring.{Ptr, null}
use operating_system_cs.Kernel.Const.{maxproc}
use operating_system_cs.Kernel.Run.{out_of_fuel, Cmd, pure, ◌>>=◌, ◌>>◌}
use operating_system_cs.Pcb.Defs.{
  set_prnt, set_child, set_next_sib, set_prev_sib, get_prnt, get_child, get_next_sib, get_prev_sib,
  empty_proc_q,
}

unfoldable pub empty_child : Ptr → Cmd Bool
empty_child p = do child ← get_child p; pure (child == null)

unfoldable pub insert_child : Ptr → Ptr → Cmd (Unit {0})
unfolding empty_proc_q
insert_child prnt p = do
  tp ← get_child prnt
  if empty_proc_q tp
      then (do set_child prnt p; set_next_sib p p; set_prev_sib p p; set_prnt p prnt)
      else do
        head ← get_next_sib tp
        set_next_sib p head
        set_prev_sib p tp
        head' ← get_next_sib tp
        set_prev_sib head' p
        set_next_sib tp p
        set_child prnt p
        set_prnt p prnt

unfoldable pub remove_child : Ptr → Cmd Ptr
remove_child p = do
  tp ← get_child p
  if tp == null then pure null else do
    rm ← get_next_sib tp
    second ← get_next_sib rm
    set_next_sib tp second
    second' ← get_next_sib rm
    set_prev_sib second' tp
    (if rm == tp then set_child p null else pure tt)
    set_prnt rm null
    pure rm

-- `while((traverse != p) && (traverse->p_next_sib != (*tp)))`
unfoldable pub out_child_loop : ℕ → (tp p traverse : Ptr) → Cmd Ptr
out_child_loop zero tp p traverse = λ _. out_of_fuel
out_child_loop (suc fuel) tp p traverse =
    let step : Cmd Ptr = (do
      next ← get_next_sib traverse
      if next == tp then pure traverse else out_child_loop fuel tp p next) in
    if traverse == p then pure traverse else step

-- What `outChild` does once the element is found; `prnt->p_child` is `tp`.
unfoldable pub unlink_child : (prnt tp p : Ptr) → Cmd Ptr
unlink_child prnt tp p = do
  next ← get_next_sib p
  prev ← get_prev_sib p
  set_prev_sib next prev
  set_next_sib prev next
  tail ← get_prev_sib p
  (if tp == p
      then (do set_child prnt tail; (if tail == p then set_child prnt null else pure tt))
      else pure tt)
  set_prev_sib p null
  set_next_sib p null
  set_prnt p null
  pure p

unfoldable pub out_child : Ptr → Cmd Ptr
out_child p = do
  prnt ← get_prnt p
  if prnt == null then pure null else do
    tp ← get_child prnt
    if tp == null then pure null else do
      traverse ← out_child_loop (maxproc + 1) tp p tp
      if traverse == p then unlink_child prnt tp p else pure null
