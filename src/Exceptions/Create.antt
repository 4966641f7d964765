-- ===== src/Exceptions/Create.antt =====
-- SYS1, `CREATEPROCESS` of phase2/exceptions.c.
use operating_system_cs.Base.{
  ℕ, ◌≡◌, ◌≢◌, refl, sym, ap, ◌∙◌, List, [], ◌∷◌, ◌++◌, not, ◌&&◌, true, false, has, upd, add32,
  if◌then◌else◌, ◌==◌, ==-refl, arith, eq_of_has,
}
use operating_system_cs.Ring.{Ptr, null, Ring, Ring-frame, Ring-at}
use operating_system_cs.Chain
use operating_system_cs.Chain.{Chain}
use operating_system_cs.Kernel.{Kernel}
use operating_system_cs.Kernel.Const.{v0, a1, a2}
use operating_system_cs.Kernel.Machine.{set_reg}
use operating_system_cs.Kernel.Run.{Returns, ok, ne_null, Returns-Ran, ran}
use operating_system_cs.Pcb.Defs.{alloc_pcb}
use operating_system_cs.Pcb.Free.{IsFree, IsBlank, PcbOnly, alloc_pcb-none, alloc_pcb-first}
use operating_system_cs.Pcb.Queue.{IsProcQ}
use operating_system_cs.Pcb.Queue.Explicit.{links_run, insert_proc_q-run, Outside}
use operating_system_cs.Pcb.Tree.{insert_child}
use operating_system_cs.Pcb.Tree.Children.{IsChildren, TreeOnly, insert_child-append}
use operating_system_cs.Exceptions.Copy.{SameState, deep_copy_state_t, deep_copy_state_t-SameState}
use operating_system_cs.Exceptions.Defs.{createprocess}

-- Without a free pcb SYS1 puts -1 into the caller's v0 and does nothing else.
pub createprocess-none :
    (k : Kernel)
    → IsFree k []
    → createprocess k ≡ ok tt (record k { bios = set_reg k.bios v0 0xFFFF_FFFF })
unfolding createprocess
createprocess-none k f = simp (alloc_pcb-none k f) refl

-- The support structure of a new process, from the caller's a2.
abbrev pub support_of : ℕ → Ptr
support_of a = if not (a == null) && not (a == 0) then a else null

-- The new process `x` is ready and a child of the caller.
pub record Created (x : Ptr) (fs xs cs : List Ptr) (k k' : Kernel) : Type 0 where
  pub free : IsFree k' fs
  pub ready : IsProcQ k' k'.ready_q (xs ++ x ∷ [])
  pub children : IsChildren k' k.current_p (cs ++ x ∷ [])
  pub state : SameState (k'.p_s x) (k.states (k.bios.s_reg a1))
  pub support : k'.p_support_struct x ≡ support_of (k.bios.s_reg a2)
  pub time : k'.p_time x ≡ 0
  pub sem_add : k'.p_sem_add x ≡ null
  pub result : k'.bios ≡ set_reg k.bios v0 0
  pub count : k'.process_count ≡ add32 k.process_count 1

module _ (k : Kernel) (x : Ptr) (fs xs cs : List Ptr) (f : IsFree k (x ∷ fs))
    (r : IsProcQ k k.ready_q xs) (ch : IsChildren k k.current_p cs) (cur : k.current_p ≢ null)
    (statep : k.bios.s_reg a1 ≢ null) (new : has x xs ≡ false) (no_child : has x cs ≡ false)
    (other : x ≢ k.current_p) (apart : (c : Ptr) → has c fs ≡ true → has c xs ≡ false) where
  xne : x ≢ null
  xne = f.links.1

  -- Behind `allocPcb`.
  module _ (k1 : Kernel) (free1 : IsFree k1 fs) (blank : IsBlank k1 x) (only : PcbOnly x k k1) where
    abbrev k2 : Kernel
    k2 = record k {
      p_next = k1.p_next;
      p_prev = k1.p_prev;
      p_prnt = k1.p_prnt;
      p_child = k1.p_child;
      p_next_sib = k1.p_next_sib;
      p_prev_sib = k1.p_prev_sib;
      p_time = k1.p_time;
      p_sem_add = k1.p_sem_add;
      pcb_free_h = k1.pcb_free_h;
      p_s = upd k1.p_s x (deep_copy_state_t (k1.p_s x) (k.states (k.bios.s_reg a1)));
      p_support_struct = upd k1.p_support_struct x (support_of (k.bios.s_reg a2));
    }

    ready2 : IsProcQ k2 k.ready_q xs
    ready2 = Ring-frame xs r λ c m.
        let o = only.links c (ground (arith, m, new, ap (λ c. has c xs) {x = c} {y = x})) in
        (o.0, o.1)

    -- Behind `insertProcQ`.
    module _ (tp : Ptr) (n q : Ptr → Ptr) (ring : Ring n q tp (xs ++ x ∷ []))
        (out : Outside (x ∷ xs) k2 n q) where
      abbrev k3 : Kernel
      k3 = record k2 { p_next = n; p_prev = q; ready_q = tp }

      children3 : IsChildren k3 k.current_p cs
      children3 =
          let o = λ (c : Ptr) (m : has c cs ≡ true).
            only.links c (ground (arith, m, no_child, ap (λ c. has c cs) {x = c} {y = x})) in
          record {
            ring =
                Ring-at (Ring-frame cs ch.ring λ c m. ((o c m).4, (o c m).5))
                  ((only.links k.current_p (λ e. other (sym e))).3);
            parent = λ c m. (o c m).2 ∙ ch.parent c m;
          }

      -- Behind `insertChild`.
      module _ (k4 : Kernel) (children : IsChildren k4 k.current_p (cs ++ x ∷ []))
          (tree : TreeOnly k.current_p (x ∷ cs) k3 k4) where
        abbrev k5 : Kernel
        k5 = record k3 {
          p_next_sib = k4.p_next_sib;
          p_prev_sib = k4.p_prev_sib;
          p_child = k4.p_child;
          p_prnt = k4.p_prnt;
          bios = set_reg k.bios v0 0;
          process_count = add32 k.process_count 1;
        }

        created : Created x fs xs cs k k5
        created = record {
          free = record {
            links =
                Chain.Links-frame k1.pcb_free_h fs free1.links
                  (λ c m. (out c (ground (arith, m, apart c m, f.distinct.0, eq_of_has c x fs))).0);
            distinct = free1.distinct;
          };
          ready = ring;
          children = record { ring = children.ring; parent = children.parent };
          state =
              simp (==-refl x)
                (deep_copy_state_t-SameState (k1.p_s x) (k.states (k.bios.s_reg a1)));
          support = simp (==-refl x) refl;
          time = blank.time;
          sem_add = blank.sem_add;
          result = refl;
          count = refl;
        }

  -- `CREATEPROCESS` from the memory behind `allocPcb`.
  creates : Returns (λ _ k'. Created x fs xs cs k k') (createprocess k)
  unfolding createprocess
  creates = elim (Returns-Ran _ (alloc_pcb k) (alloc_pcb-first k x fs f)) [
    | ran p k1 runs (is_x, free1, blank, only) ↦
        elim (insert_proc_q-run (k2 k1 free1 blank only) k.ready_q x xs (ready2 k1 free1 blank only)
          new xne) [
            | links_run tp n q runs2 (ring, is_p) out ↦
                elim (Returns-Ran _
                  (insert_child k.current_p x (k3 k1 free1 blank only tp n q ring out))
                  (insert_child-append (k3 k1 free1 blank only tp n q ring out) k.current_p x cs
                    (children3 k1 free1 blank only tp n q ring out) no_child xne cur)) [
                      | ran b k4 runs3 (children, tree) ↦
                          simp
                            (
                              runs ∙ ap (ok p) only.same,
                              is_x,
                              ne_null x xne,
                              ne_null (k.bios.s_reg a1) statep,
                              runs2,
                              runs3 ∙ ap (ok b) tree.same,
                            )
                            (created k1 free1 blank only tp n q ring out k4 children tree)
                    ]
          ]
  ]

-- With a free pcb SYS1 makes a process that starts in the state and with the support structure
-- that the caller passes: it is the last of the ready processes and the last child of the caller,
-- the caller's v0 is 0 and one more process counts. The caller passes a state; the free pcb is
-- not ready, not a child and not the caller, and no other free pcb is ready.
pub createprocess-Created :
    (k : Kernel) (x : Ptr) (fs xs cs : List Ptr)
    → IsFree k (x ∷ fs)
    → IsProcQ k k.ready_q xs
    → IsChildren k k.current_p cs
    → k.current_p ≢ null
    → k.bios.s_reg a1 ≢ null
    → has x xs ≡ false
    → has x cs ≡ false
    → x ≢ k.current_p
    → ((c : Ptr) → has c fs ≡ true → has c xs ≡ false)
    → Returns (λ _ k'. Created x fs xs cs k k') (createprocess k)
createprocess-Created = creates
