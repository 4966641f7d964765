-- ===== src/Scheduler/Ends.antt =====
-- No statement behind a call of `scheduler` runs.
use operating_system_cs.Base.{◌≡◌, refl, fun_ext, ◌==◌, gt_zero, Bool-cases, inl, inr}
use operating_system_cs.Ring.{Ptr, null}
use operating_system_cs.Kernel.{Kernel}
use operating_system_cs.Kernel.Run.{Run, Cmd, ok, leave, fault, out_of_fuel, and_then, ◌>>◌}
use operating_system_cs.Pcb.Defs.{remove_proc_q}
use operating_system_cs.Scheduler.Defs.{scheduler, idle}

-- The command does not return, from any memory.
abbrev pub Ends : Cmd (Unit {0}) → Type 0
Ends m = (n : Cmd (Unit {0})) → (m >> n) ≡ m

ends_at :
    (r : Run (Ptr × Ptr)) (f : Ptr × Ptr → Cmd (Unit {0})) (n : Cmd (Unit {0}))
    → ((o : Ptr × Ptr) (k : Kernel) → and_then (f o k) (λ _. n) ≡ f o k)
    → and_then (and_then r f) (λ _. n) ≡ and_then r f
ends_at (ok o k) f n h = h o k
ends_at (leave e k) f n h = refl
ends_at fault f n h = refl
ends_at out_of_fuel f n h = refl

pub scheduler-Ends : Ends scheduler
unfolding scheduler idle
scheduler-Ends n = fun_ext λ k. ends_at (remove_proc_q k.ready_q k) _ n λ o k'.
    elim (Bool-cases (o.0 == null)) [
      | inl e ↦ elim (Bool-cases (k'.process_count == 0)) [
        | inl c ↦ simp (e, c) refl
        | inr c ↦ elim (Bool-cases (gt_zero k'.soft_block_count)) [
          | inl s ↦ simp (e, c, s) refl
          | inr s ↦ simp (e, c, s) refl
        ]
      ]
      | inr e ↦ simp e refl
    ]
