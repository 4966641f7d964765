-- ===== src/UserCalls/Release.antt =====
-- What `TERMINATE` of phase3/sysSupport.c gives back.
use operating_system_cs.Base.{
  ℕ, zero, suc, ◌≤◌, ◌<◌, ◌≡◌, refl, sym, ap, ◌∙◌, inl, inr, true, false, arith, if◌then◌else◌,
  ◌==◌, eq_of_==, Bool-cases, upd, upd-same, upd-other, bit_and, bit_or, ◌∷◌,
}
use mathlib.Core.Path.{subst}
use operating_system_cs.Base.Bits.{digit, digit-bit_and}
use operating_system_cs.Ring.{Ptr}
use operating_system_cs.Support.{Call, Store}
use operating_system_cs.Support.Const.{
  minus_one, vbiton, iecbiton, iecbitoff, pte_elem, pfn_vbit_off,
}
use operating_system_cs.Support.Code.{Nucleus, never_back, syscall}
use operating_system_cs.Support.Logic.{After, Finishes, Finishes-Finished, finished}
use operating_system_cs.Uproc.{release_frames, invalidate_pages, give_up, die, terminate}
use operating_system_cs.Vm.Fault.Rely.{is_valid, Same, Quiet, call-Keeps}
use operating_system_cs.Instantiator.PageTable.{pte_elem-ne}
use operating_system_cs.UserCalls.Switch.Breaks.{Kills}

-- A valid entry has digit 9.
valid-digit : (lo : ℕ) → is_valid lo ≡ true → digit 9 lo ≡ 1
unfolding digit
valid-digit lo ok =
    let e : digit 9 (bit_and lo vbiton) ≡ digit 9 vbiton = ap (digit 9) (eq_of_== _ _ ok) in
    omega (arith, e, digit-bit_and 9 lo vbiton)

masked-invalid : (lo : ℕ) → is_valid (bit_and lo pfn_vbit_off) ≡ false
unfolding digit
masked-invalid lo = elim (Bool-cases (is_valid (bit_and lo pfn_vbit_off))) [
  | inl ok ↦
      absurd
        (omega (arith, valid-digit (bit_and lo pfn_vbit_off) ok, digit-bit_and 9 lo pfn_vbit_off))
  | inr bad ↦ bad
]

-- A frame of the process `a` becomes unoccupied.
abbrev released : (a owner : ℕ) → ℕ
released a owner = if owner == a then minus_one else owner

-- The frames from `n` on are as before, those below are released.
release_frames-above :
    (n a : ℕ) (s : Store) (i : ℕ) → n ≤ i → (release_frames n a s).asid i ≡ s.asid i
unfolding release_frames
release_frames-above zero a s i le = refl
release_frames-above (suc n) a s i le =
    let rest = release_frames n a s in
    let apart : (i == n) ≡ false = ground arith in
    elim (Bool-cases (rest.asid n == a)) [
      | inl e ↦
          simp e
            (upd-other rest.asid n i minus_one apart ∙ release_frames-above n a s i (omega arith))
      | inr e ↦ simp e (release_frames-above n a s i (omega arith))
    ]

release_frames-released :
    (n a : ℕ) (s : Store) (i : ℕ) → i < n → (release_frames n a s).asid i ≡ released a (s.asid i)
unfolding release_frames
release_frames-released zero a s i lt = absurd (omega arith)
release_frames-released (suc n) a s i lt =
    let rest = release_frames n a s in
    let here : rest.asid n ≡ s.asid n = release_frames-above n a s n (omega arith) in
    elim (Bool-cases (i == n)) [
      | inl q ↦
          subst (λ j. (release_frames (suc n) a s).asid j ≡ released a (s.asid j))
            (sym (eq_of_== i n q))
            (elim (Bool-cases (rest.asid n == a)) [
              | inl e ↦ simp e (ground (arith, here, e))
              | inr e ↦ simp e (ground (arith, here, e))
            ])
      | inr q ↦
          let below = release_frames-released n a s i (ground arith) in
          elim (Bool-cases (rest.asid n == a)) [
            | inl e ↦ simp e (upd-other rest.asid n i minus_one q ∙ below)
            | inr e ↦ simp e below
          ]
    ]

release_frames-others :
    (n a : ℕ) (s : Store)
    → ((release_frames n a s).entry_lo ≡ s.entry_lo)
      × ((release_frames n a s).sup_asid ≡ s.sup_asid)
unfolding release_frames
release_frames-others zero a s = (refl, refl)
release_frames-others (suc n) a s = elim (Bool-cases ((release_frames n a s).asid n == a)) [
  | inl e ↦ simp e (release_frames-others n a s)
  | inr e ↦ simp e (release_frames-others n a s)
]

invalidate_pages-asid : (n : ℕ) (sup : Ptr) (s : Store) → (invalidate_pages n sup s).asid ≡ s.asid
unfolding invalidate_pages
invalidate_pages-asid zero sup s = refl
invalidate_pages-asid (suc n) sup s = invalidate_pages-asid n sup s

invalidate_pages-invalid :
    (n : ℕ) (sup : Ptr) (s : Store) (k : ℕ)
    → n ≤ 32
    → k < n
    → is_valid ((invalidate_pages n sup s).entry_lo (pte_elem sup k)) ≡ false
unfolding invalidate_pages
invalidate_pages-invalid zero sup s k le lt = absurd (omega arith)
invalidate_pages-invalid (suc n) sup s k le lt =
    let rest = invalidate_pages n sup s in
    let e = pte_elem sup n in
    let masked = bit_and (rest.entry_lo e) pfn_vbit_off in
    elim (Bool-cases (k == n)) [
      | inl q ↦
          subst (λ j. is_valid (upd rest.entry_lo e masked (pte_elem sup j)) ≡ false)
            (sym (eq_of_== k n q))
            (ap is_valid (upd-same rest.entry_lo e masked) ∙ masked-invalid (rest.entry_lo e))
      | inr q ↦
          ap is_valid (
            upd-other rest.entry_lo e (pte_elem sup k) masked
              (pte_elem-ne sup k n (ground arith) (omega arith)))
          ∙ invalidate_pages-invalid n sup s k (omega arith) (ground arith)
    ]

-- What the process has given back.
pub record IsReleased (sup : Ptr) (s s' : Store) : Type 0 where
  pub frames : (i : ℕ) → i < 32 → s'.asid i ≡ released (s.sup_asid sup) (s.asid i)
  pub pages : (k : ℕ) → k < 32 → is_valid (s'.entry_lo (pte_elem sup k)) ≡ false

Same-IsReleased :
    (sup : Ptr) (s s' s'' : Store) → IsReleased sup s s' → Same sup s' s'' → IsReleased sup s s''
Same-IsReleased sup s s' s'' r h = record {
  frames = λ i lt. ap (λ a. a i) h.asid ∙ r.frames i lt;
  pages = λ k lt. elim (Bool-cases (is_valid (s''.entry_lo (pte_elem sup k)))) [
    | inl ok ↦ ground (arith, ap is_valid (h.valid (pte_elem sup k) ok), r.pages k lt, ok)
    | inr bad ↦ bad
  ];
}

-- The memory after the two loops, with what the calls between them leave.
give_up_lem :
    (sup : Ptr) (s s1 s3 : Store) (x : ℕ)
    → Same sup s s1
    → Same sup (release_frames 32 (s1.sup_asid sup) s1) s3
    → IsReleased sup s (record (invalidate_pages 32 sup s3) { status = x })
give_up_lem sup s s1 s3 x h1 h3 = record {
  frames = λ i lt.
      ap (λ a. a i) (invalidate_pages-asid 32 sup s3)
      ∙ (ap (λ a. a i) h3.asid
          ∙ (release_frames-released 32 (s1.sup_asid sup) s1 i lt
              ∙ (ap (λ o. released o (s1.asid i)) h1.own_asid
                  ∙ ap (λ a. released (s.sup_asid sup) (a i)) h1.asid)));
  pages = λ k lt. invalidate_pages-invalid 32 sup s3 k (omega arith) lt;
}

module _ (nucleus : Nucleus) (sup : Ptr) (quiet : Quiet nucleus sup) where
  give_up-IsReleased : (s : Store) → Finishes (λ _ s'. IsReleased sup s s') (give_up nucleus sup s)
  unfolding give_up
  give_up-IsReleased s =
      let t : Store = record s { status = bit_and s.status iecbitoff } in
      let sema = s.statics.swap_pool_sema4 in
      let master = s.statics.master_semaphore in
      elim (Finishes-Finished (λ _ s'. Same sup t s') (syscall nucleus 3 sema 0 0 t)
        (call-Keeps nucleus sup quiet 3 sema 0 0 (inl refl) t)) [
          | finished v s1 r1 h1 ↦
              let s2 = release_frames 32 (s1.sup_asid sup) s1 in
              elim (Finishes-Finished (λ _ s'. Same sup s2 s') (syscall nucleus 4 sema 0 0 s2)
                (call-Keeps nucleus sup quiet 4 sema 0 0 (inr (inl refl)) s2)) [
                  | finished v3 s3 r3 h3 ↦
                      let inv = invalidate_pages 32 sup s3 in
                      let s4 : Store = record inv { status = bit_or inv.status iecbiton } in
                      let r = give_up_lem sup t s1 s3 (bit_or inv.status iecbiton) h1 h3 in
                      elim (Finishes-Finished (λ _ s'. Same sup s4 s')
                        (syscall nucleus 4 master 0 0 s4)
                        (call-Keeps nucleus sup quiet 4 master 0 0 (inr (inl refl)) s4)) [
                          | finished v5 s5 r5 h5 ↦
                              let out = Same-IsReleased sup t s4 s5 r h5 in
                              simp (r1, r3, r5) (record { frames = out.frames; pages = out.pages })
                        ]
                ]
        ]

-- `TERMINATE` ends with SYS2. By then all frames of the process are unoccupied, those of other
-- processes are as they were, and no entry of its page table is valid. SYS2 does not return; SYS3 and
-- SYS4 return, and other processes change neither the swap pool nor make entries valid.
pub terminate-IsReleased :
    (nucleus : Nucleus) (sup : Ptr) (s : Store)
    → Kills nucleus
    → Quiet nucleus sup
    → After (λ _ _. ⊥) (λ d s'. (d ≡ never_back) × IsReleased sup s s') (terminate nucleus sup s)
unfolding terminate die
terminate-IsReleased nucleus sup s kills quiet =
    elim (Finishes-Finished (λ _ s'. IsReleased sup s s') (give_up nucleus sup s)
      (give_up-IsReleased nucleus sup quiet s)) [
        | finished u t runs r ↦
            let c : Call = record { number = 2; arg1 = 0; arg2 = 0; arg3 = 0 } in
            simp (runs, kills c (record t { calls = c ∷ t.calls }) refl)
              (refl, record { frames = r.frames; pages = r.pages })
      ]
