-- ===== src/Exceptions/Stall.antt =====
-- The P operation (SYS3, `PASSEREN` of phase2/exceptions.c) of the last process that can run, and what
-- `scheduler` (phase2/scheduler.c) then does.
use operating_system_cs.Base.{
  ◌<◌, ◌≡◌, ◌≢◌, refl, sym, ap, ◌∙◌, ◌⊎◌, List, [], ◌∷◌, ◌++◌, true, false, has, upd, add32, sub32,
  is_neg, gt_zero, if◌then◌else◌, ◌==◌, ==-refl, ==-of_ne, Bool-cases, inl, inr, ℕ,
}
use mathlib.Core.Path.{subst}
use operating_system_cs.Ring.{Ptr, null, Ring, Ring-frame}
use operating_system_cs.Kernel.{Kernel}
use operating_system_cs.Kernel.Const.{a1}
use operating_system_cs.Kernel.Run.{Exit, Leaves, wait, panic, ne_null, Returns-Ran, ran}
use operating_system_cs.Pcb.Queue.{IsProcQ}
use operating_system_cs.Pcb.Queue.Explicit.{links_run, remove_proc_q-run}
use operating_system_cs.Asl.Defs.{sentinel, insert_blocked}
use operating_system_cs.Asl.List.{Desc, sems, blocked, queue_of, IsAsl}
use operating_system_cs.Asl.Frame.{IsAsl-outer}
use operating_system_cs.Asl.Insert.Blocked.{Joined, insert_blocked-Joined}
use operating_system_cs.Scheduler.Defs.{scheduler, idle}
use operating_system_cs.Exceptions.Copy.{SameState, deep_copy_state_t, deep_copy_state_t-SameState}
use operating_system_cs.Exceptions.Defs.{passeren, helper_blocking_syscall_handler}
use operating_system_cs.Exceptions.Semaphores.{next_state, then_ends}

-- The caller `p` waits for the semaphore `a` with its state saved, and no process runs: the machine
-- waits for an interrupt, which is enabled, or it stops.
pub record Stalls (t a p : Ptr) (ds : List Desc) (k : Kernel) (e : Exit) (k' : Kernel)
    : Type 0 where
  pub exit : e ≡ (if gt_zero k.soft_block_count then wait else panic)
  pub status : k'.status ≡ (if gt_zero k.soft_block_count then 0xff01 else k.status)
  pub current : k'.current_p ≡ null
  pub ready : IsProcQ k' k'.ready_q []
  pub list : List Desc
  pub free : List Ptr
  pub is_asl : IsAsl k' t list free
  pub queues :
      (b : Ptr) → queue_of b list ≡ (if b == a then queue_of a ds ++ p ∷ [] else queue_of b ds)
  pub saved : SameState (k'.p_s p) (next_state k.bios)
  pub value : k'.words a ≡ sub32 (k.words a) 1

module _ (k : Kernel) (t : Ptr) (ds : List Desc) (free : List Ptr) (A : IsAsl k t ds free)
    (cur : k.current_p ≢ null) (r : IsProcQ k k.ready_q []) (some : k.process_count ≢ 0) where
  abbrev a : Ptr
  a = k.bios.s_reg a1

  abbrev p : Ptr
  p = k.current_p

  abbrev k0 : Kernel
  k0 = record k { words = upd k.words a (sub32 (k.words a) 1) }

  module _ (k1 : Kernel) (j : Joined t a p ds k0 k1) where
    abbrev k2 : Kernel
    k2 = record k1 {
      current_p = p;
      bios = next_state k.bios;
      p_s = upd k1.p_s p (deep_copy_state_t (k1.p_s p) (next_state k.bios));
      p_time = upd k1.p_time p (add32 (k1.p_time p) (sub32 5000 k1.timer));
    }

    ready2 : IsProcQ k2 k2.ready_q []
    ready2 =
        subst (λ tp. Ring k1.p_next k1.p_prev tp [])
          (ap (λ (z : Kernel). z.ready_q) (sym j.asl_only.same)) (Ring-frame [] r λ c m. cc)

    soft : gt_zero k1.soft_block_count ≡ gt_zero k.soft_block_count
    soft = ap (λ (z : Kernel). gt_zero z.soft_block_count) j.asl_only.same

    stalls : Leaves (Stalls t a p ds k) (helper_blocking_syscall_handler k1)
    unfolding helper_blocking_syscall_handler scheduler idle
    stalls = elim (remove_proc_q-run k2 k2.ready_q [] ready2) [
      | links_run o n q runs (res, ring) out ↦
          let k3 : Kernel = record k2 { p_next = n; p_prev = q; ready_q = o.1; current_p = null } in
          let result : (e : Exit) (x : ℕ)
              → e ≡ (if gt_zero k.soft_block_count then wait else panic)
              → x ≡ (if gt_zero k.soft_block_count then 0xff01 else k.status)
              → Stalls t a p ds k e (record k3 { status = x }) =
            λ e x exit status. record {
              exit = exit;
              status = status;
              current = refl;
              ready = ring;
              list = j.list;
              free = j.free;
              is_asl =
                  IsAsl-outer k1 (record k3 { status = x }) t j.list j.free refl (λ c m. out c refl)
                    j.is_asl;
              queues = j.queues;
              saved = simp (==-refl p) (deep_copy_state_t-SameState (k1.p_s p) (next_state k.bios));
              value = ap (λ (z : Kernel). z.words a) j.asl_only.same ∙ simp (==-refl a) refl;
            } in
          let count : (k1.process_count == 0) ≡ false =
            ap (λ (z : Kernel). z.process_count == 0) j.asl_only.same ∙ ==-of_ne _ _ some in
          elim (Bool-cases (gt_zero k.soft_block_count)) [
            | inl s ↦
                simp
                  (
                    ap (λ (z : Kernel). z.current_p) j.asl_only.same,
                    ap (λ (z : Kernel). z.bios) j.asl_only.same,
                    ne_null p cur,
                    runs,
                    res,
                    count,
                    soft ∙ s,
                  )
                  (result wait 0xff01 (simp s refl) (simp s refl))
            | inr s ↦
                simp
                  (
                    ap (λ (z : Kernel). z.current_p) j.asl_only.same,
                    ap (λ (z : Kernel). z.bios) j.asl_only.same,
                    ne_null p cur,
                    runs,
                    res,
                    count,
                    soft ∙ s,
                  )
                  (result panic k1.status (simp s refl)
                    (ap (λ (z : Kernel). z.status) j.asl_only.same ∙ simp s refl))
          ]
    ]

-- A P operation that takes the semaphore below 0 while no process is ready puts the caller behind those
-- who wait on it, with its state saved behind the system call. Then the machine waits with interrupts
-- enabled if a process waits for a device, and panics, since nothing can wake any process, if none
-- does; there is no current process, and the list stays well formed with its other queues. The
-- semaphore is neither 0, NULL nor the tail mark, the caller is counted and blocked nowhere, and the
-- semaphore is on the list or a descriptor is free.
pub passeren-Stalls :
    (k : Kernel) (t : Ptr) (ds : List Desc) (free : List Ptr)
    → IsAsl k t ds free
    → IsProcQ k k.ready_q []
    → k.process_count ≢ 0
    → k.current_p ≢ null
    → has k.current_p (blocked ds) ≡ false
    → 0 < k.bios.s_reg a1
    → k.bios.s_reg a1 ≢ null
    → k.bios.s_reg a1 ≢ sentinel k
    → (has (k.bios.s_reg a1) (sems ds) ≡ true) ⊎ (free ≢ [])
    → is_neg (sub32 (k.words (k.bios.s_reg a1)) 1) ≡ true
    → Leaves (Stalls t (k.bios.s_reg a1) k.current_p ds k) (passeren k)
unfolding passeren
passeren-Stalls k t ds free A r some cur new pos ne ns room low =
    let x = k.bios.s_reg a1 in
    let before = record k { words = upd k.words x (sub32 (k.words x) 1) } in
    elim (Returns-Ran _ (insert_blocked x k.current_p before) (
      insert_blocked-Joined before t x k.current_p ds free
        (IsAsl-outer k before t ds free refl (λ c m. (refl, refl)) A) pos ns cur new room)) [
          | ran b k1 runs (res, j) ↦
              simp (ne_null x ne, ==-refl x, low, runs)
                (then_ends _ (helper_blocking_syscall_handler k1) _
                  (stalls k t ds free A cur r some k1 j))
        ]
