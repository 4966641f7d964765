-- ===== src/Instantiator/Start.antt =====
-- The user processes that `test` (phase3/initProc.c) makes.
use operating_system_cs.Base.{
  ℕ, zero, suc, ◌+◌, ◌-◌, ◌<◌, ◌≤◌, ◌≡◌, ◌∷◌, refl, sym, ap, ◌∙◌, false, arith, upd, upd-same,
  upd-other, ◌==◌, ==-of_ne, Bool-cases, inl, inr, eq_of_==,
}
use mathlib.Core.Path.{subst}
use operating_system_cs.Ring.{Ptr}
use operating_system_cs.Kernel.Const.{array_elem}
use operating_system_cs.Support.{Call, Statics, Store}
use operating_system_cs.Support.Const.{support_size}
use operating_system_cs.Support.Code.{Nucleus}
use operating_system_cs.Support.Logic.{Finishes, Finishes-Finished, finished, Finishes-mono}
use operating_system_cs.Instantiator.{init_uproc, start_uprocs}
use operating_system_cs.Instantiator.Ready.{
  Creates, create_call, creations, prepared, prepared-IsReady, init_uproc-prepared, created,
}

abbrev pub support_at : Statics → ℕ → Ptr
support_at st k = array_elem st.init_support_arr support_size k

support_at-ne :
    (st : Statics) (j k : ℕ) → (j == k) ≡ false → (support_at st j == support_at st k) ≡ false
support_at-ne st j k ne = ground (arith, ne)

-- What the rounds for the processes `i` to `i + n - 1` have done.
pub record Started (st : Statics) (n i : ℕ) (s s' : Store) : Type 0 where
  pub statics : s'.statics ≡ st
  pub before : (k : ℕ) → k + 1 < i → s'.sup_asid (support_at st k) ≡ s.sup_asid (support_at st k)
  pub numbers : (k : ℕ) → i ≤ k + 1 → k + 1 < i + n → s'.sup_asid (support_at st k) ≡ k + 1
  pub called : s'.calls ≡ creations st n i s.calls

one_more :
    (st : Statics) (n i : ℕ) (s s1 s' : Store)
    → s.statics ≡ st
    → 0 < i
    → s1.sup_asid ≡ upd s.sup_asid (support_at s.statics (i - 1)) i
    → s1.calls ≡ create_call s.statics i ∷ s.calls
    → Started st n (i + 1) s1 s'
    → Started st (suc n) i s s'
one_more st n i s s1 s' e pos own call r =
    let mine : s1.sup_asid ≡ upd s.sup_asid (support_at st (i - 1)) i =
      own ∙ ap (λ z. upd s.sup_asid (support_at z (i - 1)) i) e in
    record {
      statics = r.statics;
      before = λ k lt.
          r.before k (omega arith)
          ∙ (ap (λ f. f (support_at st k)) mine
              ∙ upd-other s.sup_asid (support_at st (i - 1)) (support_at st k) i
                  (support_at-ne st k (i - 1) (==-of_ne k (i - 1) (omega arith))));
      numbers = λ k le lt. elim (Bool-cases (k + 1 == i)) [
        | inl q ↦
            let is : k + 1 ≡ i = eq_of_== (k + 1) i q in
            let place : k ≡ i - 1 = omega (arith, is) in
            r.before k (omega (arith, is))
            ∙ (ap (λ f. f (support_at st k)) mine
                ∙ (ap (λ j. upd s.sup_asid (support_at st (i - 1)) i (support_at st j)) place
                    ∙ (upd-same s.sup_asid (support_at st (i - 1)) i ∙ sym is)))
        | inr q ↦ r.numbers k (ground arith) (omega arith)
      ];
      called =
          r.called
          ∙ (ap (creations st n (i + 1)) call
              ∙ ap (λ z. creations st n (i + 1) (create_call z i ∷ s.calls)) e);
    }

module _ (nucleus : Nucleus) (creates : Creates nucleus) where
  init_uproc-created :
      (s : Store) (sup : Ptr) (a : ℕ)
      → 0 < a
      → a ≤ 8
      → Finishes
          (λ v s'.
            (v ≡ 0)
            × (s'.statics ≡ s.statics)
            × (s'.sup_asid ≡ upd s.sup_asid sup a)
            × (s'.calls
                ≡ record { number = 1; arg1 = s.statics.init_state; arg2 = sup; arg3 = 0 }
                  ∷ s.calls))
          (init_uproc nucleus sup a s)
  init_uproc-created s sup a pos le =
      let c : Call = record { number = 1; arg1 = s.statics.init_state; arg2 = sup; arg3 = 0 } in
      let t : Store = record (prepared s sup a) { calls = c ∷ s.calls } in
      subst
        (Finishes (λ v s'.
          (v ≡ 0)
          × (s'.statics ≡ s.statics)
          × (s'.sup_asid ≡ upd s.sup_asid sup a)
          × (s'.calls ≡ c ∷ s.calls)))
        (sym (init_uproc-prepared nucleus s sup a))
        (created s sup a c (nucleus c t) (creates c t a refl pos le (prepared-IsReady s sup a c)))

  start_uprocs-Started :
      (st : Statics) (n i : ℕ) (s : Store)
      → s.statics ≡ st
      → 0 < i
      → i + n ≤ 9
      → Finishes (λ _ s'. Started st n i s s') (start_uprocs nucleus n i s)
  unfolding start_uprocs
  start_uprocs-Started st zero i s e pos le = record {
    statics = e;
    before = λ k lt. refl;
    numbers = λ k lo hi. absurd (omega (arith, lo, hi));
    called = refl;
  }
  start_uprocs-Started st (suc n) i s e pos le =
      let sup = support_at s.statics (i - 1) in
      elim (Finishes-Finished
        (λ v s'.
          (v ≡ 0)
          × (s'.statics ≡ s.statics)
          × (s'.sup_asid ≡ upd s.sup_asid sup i)
          × (s'.calls ≡ create_call s.statics i ∷ s.calls))
        (init_uproc nucleus sup i s) (init_uproc-created s sup i pos (omega arith))) [
          | finished v s1 runs h ↦
              simp (runs, h.0)
                (Finishes-mono (λ _ s'. Started st n (i + 1) s1 s')
                  (λ _ s'. Started st (suc n) i s s') _
                  (start_uprocs-Started st n (i + 1) s1 (h.1 ∙ e) (omega arith) (omega arith))
                  (λ _ s' r. one_more st n i s s1 s' e pos h.2 h.3 r))
        ]

-- The loop of `test` that makes `n` user processes, at most 8, ends: SYS1 is called once for each of the
-- numbers 1 to `n`, in this order and with no other call, each time with a process that can be made,
-- and then each support structure has its own number. SYS1 returns 0 for such a process.
pub start_uprocs-all :
    (nucleus : Nucleus) (n : ℕ) (s : Store)
    → Creates nucleus
    → n ≤ 8
    → Finishes
        (λ _ s'.
          ((k : ℕ) → k < n → s'.sup_asid (support_at s.statics k) ≡ k + 1)
          × (s'.calls ≡ creations s.statics n 1 s.calls))
        (start_uprocs nucleus n 1 s)
start_uprocs-all nucleus n s creates le =
    Finishes-mono (λ _ s'. Started s.statics n 1 s s') _ _
      (start_uprocs-Started nucleus creates s.statics n 1 s refl (omega arith) (omega arith))
      (λ _ s' r. (λ k lt. r.numbers k (omega arith) (omega arith), r.called))
