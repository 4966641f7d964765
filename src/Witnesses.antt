-- ===== src/Witnesses.antt =====
-- The theorems at the memory of Samples.antt.
use operating_system_cs.Base.{◌≡◌, refl, inl, [], ◌∷◌, true, false, arith, has}
use operating_system_cs.Ring.{null}
use operating_system_cs.Kernel.{Kernel}
use operating_system_cs.Kernel.Run.{Returns, Leaves, ok, ldst}
use operating_system_cs.Pcb.Defs.{insert_proc_q, remove_proc_q, out_proc_q, init_pcbs}
use operating_system_cs.Pcb.Free.{IsFree, pcb_list, init_pcbs-pcb_list}
use operating_system_cs.Pcb.Queue.{IsProcQ, LinksOnly, insert_proc_q-append, remove_proc_q-rest}
use operating_system_cs.Pcb.Queue.Out.{Erased, out_proc_q-erase, out_proc_q-absent}
use operating_system_cs.Pcb.Tree.{insert_child, remove_child, out_child}
use operating_system_cs.Pcb.Tree.Children.{
  IsChildren, TreeOnly, insert_child-append, remove_child-rest,
}
use operating_system_cs.Pcb.Tree.Out.{Orphaned, out_child-erase}
use operating_system_cs.Asl.Defs.{
  init_asl, traverse_asl, insert_blocked, remove_blocked, out_blocked, head_blocked,
}
use operating_system_cs.Asl.List.{IsAsl}
use operating_system_cs.Asl.Init.{free_table, init_asl-IsAsl}
use operating_system_cs.Asl.Traverse.{pred_of, traverse_asl-pred}
use operating_system_cs.Asl.Insert.Blocked.{Joined, insert_blocked-Joined}
use operating_system_cs.Asl.Remove.Absent.{Unblocked}
use operating_system_cs.Asl.Remove.{remove_blocked-Unblocked}
use operating_system_cs.Asl.Remove.Head.{head_blocked-first}
use operating_system_cs.Asl.Remove.Out.{OutOf, out_blocked-OutOf}
use operating_system_cs.Scheduler.Defs.{scheduler}
use operating_system_cs.Scheduler.Dispatch.{Dispatched, scheduler-dispatch}
use operating_system_cs.Exceptions.Defs.{
  passeren, verhogen, createprocess, pass_up_or_die, syscall_handler, syscall_switch,
}
use operating_system_cs.Exceptions.Switch.{switch_with_breaks, syscall_switch-breaks}
use operating_system_cs.Exceptions.PassUp.{
  PassedUp, reserved, pass_up_or_die-PassedUp, syscall_handler-user_mode,
}
use operating_system_cs.Exceptions.Semaphores.{Waits, passeren-blocks}
use operating_system_cs.Exceptions.Stall.{Stalls, passeren-Stalls}
use operating_system_cs.Asl.Frame.{IsAsl-outer}
use operating_system_cs.Exceptions.Wake.{Woken, verhogen-wakes}
use operating_system_cs.Initial.{main}
use operating_system_cs.Initial.First.{Booted, main-Booted}
use operating_system_cs.Interrupts.Clock.{Drained, pseudo_clock_interrupts-Drained}
use operating_system_cs.Exceptions.Create.{Created, createprocess-Created}
use operating_system_cs.Interrupts.Defs.{
  process_local_timer_interrupts, pseudo_clock_interrupts, helper_check_interrupt_line,
}
use operating_system_cs.Interrupts.Pending.{helper_check_interrupt_line-bit_at}
use operating_system_cs.Interrupts.Timer.{RoundRobin, process_local_timer_interrupts-RoundRobin}
use operating_system_cs.Samples.{
  sample, saved_state, waiting, free_descs, sample-IsProcQ, sample-IsChildren, sample-IsFree,
  sample-IsAsl,
}

insert_proc_q-append_example :
    Returns
      (λ tp' k'.
        IsProcQ k' tp' (2000 ∷ 3000 ∷ 5000 ∷ [])
        × (tp' ≡ 5000)
        × LinksOnly (5000 ∷ 2000 ∷ 3000 ∷ []) sample k')
      (insert_proc_q 3000 5000 sample)
insert_proc_q-append_example =
    insert_proc_q-append sample 3000 5000 (2000 ∷ 3000 ∷ []) sample-IsProcQ refl (ground arith)

remove_proc_q-rest_example :
    Returns
      (λ (rm, tp') k'.
        (rm ≡ 2000) × IsProcQ k' tp' (3000 ∷ []) × LinksOnly (2000 ∷ 3000 ∷ []) sample k')
      (remove_proc_q 3000 sample)
remove_proc_q-rest_example = remove_proc_q-rest sample 3000 (2000 ∷ 3000 ∷ []) sample-IsProcQ

out_proc_q-erase_example :
    Returns (Erased 3000 (2000 ∷ 3000 ∷ []) sample) (out_proc_q 3000 3000 sample)
out_proc_q-erase_example =
    out_proc_q-erase sample 3000 3000 (2000 ∷ 3000 ∷ []) sample-IsProcQ (ground arith) refl

out_proc_q-absent_example : out_proc_q 3000 5000 sample ≡ ok (null, 3000) sample
out_proc_q-absent_example =
    out_proc_q-absent sample 3000 5000 (2000 ∷ 3000 ∷ []) sample-IsProcQ (ground arith) refl

init_pcbs-pcb_list_example :
    Returns
      (λ _ k'.
        IsFree k' (pcb_list sample)
        × (k' ≡ record sample { p_next = k'.p_next; pcb_free_h = 1000 }))
      (init_pcbs sample)
init_pcbs-pcb_list_example = init_pcbs-pcb_list sample (ground arith)

insert_child-append_example :
    Returns
      (λ _ k'.
        IsChildren k' 1000 (2000 ∷ 3000 ∷ 5000 ∷ [])
        × TreeOnly 1000 (5000 ∷ 2000 ∷ 3000 ∷ []) sample k')
      (insert_child 1000 5000 sample)
insert_child-append_example =
    insert_child-append sample 1000 5000 (2000 ∷ 3000 ∷ []) sample-IsChildren refl (ground arith)
      (ground arith)

remove_child-rest_example :
    Returns
      (λ rm k'.
        (rm ≡ 2000)
        × IsChildren k' 1000 (3000 ∷ [])
        × (has rm (2000 ∷ 3000 ∷ []) ≡ true → k'.p_prnt rm ≡ null)
        × TreeOnly 1000 (2000 ∷ 3000 ∷ []) sample k')
      (remove_child 1000 sample)
remove_child-rest_example =
    remove_child-rest sample 1000 (2000 ∷ 3000 ∷ []) sample-IsChildren (ground arith)

out_child-erase_example :
    Returns (Orphaned 1000 2000 (2000 ∷ 3000 ∷ []) sample) (out_child 2000 sample)
out_child-erase_example =
    out_child-erase sample 1000 2000 (2000 ∷ 3000 ∷ []) sample-IsChildren (ground arith)
      (ground arith) refl

traverse_asl-pred_example : traverse_asl 200 sample ≡ ok (pred_of 200 7000 waiting) sample
traverse_asl-pred_example = traverse_asl-pred sample 7012 200 waiting free_descs sample-IsAsl

insert_blocked-Joined_example :
    Returns
      (λ r k'. (r ≡ false) × Joined 7012 492 1000 waiting sample k')
      (insert_blocked 492 1000 sample)
insert_blocked-Joined_example =
    insert_blocked-Joined sample 7012 492 1000 waiting free_descs sample-IsAsl (ground arith)
      (ground arith) (ground arith) refl (inl refl)

remove_blocked-Unblocked_example :
    Returns
      (λ r k'. (r ≡ 4000) × Unblocked 7012 492 waiting free_descs sample k')
      (remove_blocked 492 sample)
remove_blocked-Unblocked_example =
    remove_blocked-Unblocked sample 7012 492 waiting free_descs sample-IsAsl (ground arith)
      (ground arith)

out_blocked-OutOf_example :
    Returns
      (λ r k'. (r ≡ 4000) × OutOf 7012 492 4000 waiting free_descs sample k')
      (out_blocked 4000 sample)
out_blocked-OutOf_example =
    out_blocked-OutOf sample 7012 4000 waiting free_descs sample-IsAsl (ground arith) (ground arith)
      refl refl (ground arith)

scheduler-dispatch_example : Leaves (Dispatched sample (2000 ∷ 3000 ∷ [])) (scheduler sample)
scheduler-dispatch_example = scheduler-dispatch sample 2000 (3000 ∷ []) sample-IsProcQ

-- No process is ready and one waits for a device.
abbrev idle_sample : Kernel
idle_sample = record sample { ready_q = null; soft_block_count = 1 }

passeren-blocks_example :
    Leaves (Waits 7012 492 1000 2000 (3000 ∷ []) waiting sample) (passeren sample)
passeren-blocks_example =
    passeren-blocks sample 7012 2000 (3000 ∷ []) waiting free_descs sample-IsAsl sample-IsProcQ
      (λ c m. ground arith) (ground arith) refl (ground arith) (ground arith) (ground arith)
      (inl refl) refl

verhogen-wakes_example :
    Returns (Woken 7012 492 4000 (2000 ∷ 3000 ∷ []) waiting sample) (verhogen sample)
verhogen-wakes_example =
    verhogen-wakes sample 7012 4000 (2000 ∷ 3000 ∷ []) [] waiting free_descs sample-IsAsl
      sample-IsProcQ (λ c m. ground arith) (ground arith) (ground arith) (ground arith) refl
      (ground arith) refl

createprocess-Created_example :
    Returns
      (λ _ k'. Created 5000 (6000 ∷ []) (2000 ∷ 3000 ∷ []) (2000 ∷ 3000 ∷ []) sample k')
      (createprocess sample)
createprocess-Created_example =
    createprocess-Created sample 5000 (6000 ∷ []) (2000 ∷ 3000 ∷ []) (2000 ∷ 3000 ∷ [])
      sample-IsFree sample-IsProcQ sample-IsChildren (ground arith) (ground arith) refl refl
      (ground arith) (λ c m. ground arith)

pass_up_or_die-PassedUp_example :
    Leaves (PassedUp sample 9000 0 saved_state) (pass_up_or_die 0 sample)
pass_up_or_die-PassedUp_example = pass_up_or_die-PassedUp sample 0 (ground arith) (ground arith)

syscall_handler-user_mode_example :
    Leaves (PassedUp sample 9000 1 (reserved saved_state)) (syscall_handler sample)
syscall_handler-user_mode_example =
    syscall_handler-user_mode sample (ground arith) (ground arith) (ground arith)

syscall_switch-breaks_example : syscall_switch 4 ≡ switch_with_breaks 4
syscall_switch-breaks_example = syscall_switch-breaks 4

process_local_timer_interrupts-RoundRobin_example :
    Leaves (RoundRobin sample (2000 ∷ 3000 ∷ [])) (process_local_timer_interrupts sample)
process_local_timer_interrupts-RoundRobin_example =
    process_local_timer_interrupts-RoundRobin sample (2000 ∷ 3000 ∷ []) sample-IsProcQ refl
      (ground arith)

-- The pcb that waits has called SYS7: its semaphore is that of the pseudo-clock.
pseudo_clock_interrupts-Drained_example :
    Leaves
      (λ e k'.
        (e ≡ ldst saved_state)
        × (k'.words 492 ≡ 0)
        × Drained 7012 492 waiting
            (2000 ∷ 3000 ∷ [])
            (4000 ∷ [])
            (record sample { words = k'.words })
            k')
      (pseudo_clock_interrupts sample)
pseudo_clock_interrupts-Drained_example =
    pseudo_clock_interrupts-Drained sample 7012 492 waiting free_descs (2000 ∷ 3000 ∷ []) refl
      sample-IsAsl sample-IsProcQ (λ c m. ground arith) (ground arith) (ground arith) (ground arith)
      (ground arith) (ground arith)

init_asl-IsAsl_example :
    Returns
      (λ _ k'.
        IsAsl k' 7012 [] (free_table sample)
        × (k' ≡ record sample {
          s_next = k'.s_next;
          s_sem_add = k'.s_sem_add;
          s_proc_q = k'.s_proc_q;
          semd_free_h = k'.semd_free_h;
          semd_h = k'.semd_h;
        }))
      (init_asl sample)
init_asl-IsAsl_example = init_asl-IsAsl sample (ground arith)

main-Booted_example : Leaves (Booted sample) (main sample)
main-Booted_example = main-Booted sample (ground arith) (ground arith) (ground arith)

-- Line 2 is pending.
abbrev tick_sample : Kernel
tick_sample = record sample { bios = record saved_state { s_cause = 0x400 } }

helper_check_interrupt_line-bit_at_example :
    helper_check_interrupt_line 2 tick_sample ≡ ok true tick_sample
helper_check_interrupt_line-bit_at_example =
    helper_check_interrupt_line-bit_at tick_sample 2 (ground arith)

head_blocked-first_example : head_blocked 492 sample ≡ ok 4000 sample
head_blocked-first_example =
    head_blocked-first sample 7012 492 waiting free_descs sample-IsAsl (ground arith) (ground arith)

passeren-Stalls_example : Leaves (Stalls 7012 492 1000 waiting idle_sample) (passeren idle_sample)
passeren-Stalls_example =
    passeren-Stalls idle_sample 7012 waiting free_descs
      (IsAsl-outer sample idle_sample 7012 waiting free_descs refl (λ c m. (refl, refl))
        sample-IsAsl)
      (record { tail = refl; links = tt; distinct = tt; no_null = refl }) (ground arith)
      (ground arith) refl (ground arith) (ground arith) (ground arith) (inl refl) refl
