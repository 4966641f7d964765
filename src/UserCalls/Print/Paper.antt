-- ===== src/UserCalls/Print/Paper.antt =====
-- The text that `WRITE_TO_PRINTER` (phase3/sysSupport.c) prints.
use operating_system_cs.Base.{
  ℕ, zero, suc, ◌+◌, ◌≤◌, ◌<◌, ◌≡◌, refl, sym, ap, ◌∙◌, inl, inr, true, false, arith, ltb, ◌∷◌, upd,
  upd-same, upd-other, add32, sub32, ==-refl, bit_and,
}
use mathlib.Core.Path.{subst}
use operating_system_cs.Ring.{Ptr}
use operating_system_cs.Kernel.{State}
use operating_system_cs.Kernel.Const.{
  v0, a1, a2, dev_addr_base, int_elem, dev_sem_idx, generalexcept,
}
use operating_system_cs.Kernel.Machine.{set_reg}
use operating_system_cs.Support.{Call, Store}
use operating_system_cs.Support.Const.{d_command, d_data0, prntint, str_max, iecbitoff}
use operating_system_cs.Support.Code.{Nucleus, done, skip, syscall, ◌>>◌}
use operating_system_cs.Support.Machine.{slt, verho, with_saved, set_saved_reg}
use operating_system_cs.Support.Logic.{Finishes, Finishes-mono, Finishes-Finished, finished}
use operating_system_cs.UserCalls.{helper_check_string_outside_addr_space, check_string}
use operating_system_cs.UserCalls.Print.{print_char, print_loop, write_to_printer}
use operating_system_cs.UserCalls.Print.Ready.{
  Prints, PrintsReady, Printer, typed, slt-small, ltb_irrefl, registers_apart, answered-Prints,
  mutex-Prints,
}

module _ (nucleus : Nucleus) (sup : Ptr) (dev : ℕ) (printer : Printer nucleus sup dev) where
  -- The address of the text, and a character of it.
  abbrev pub text_at : Store → Ptr
  text_at s = (s.sup_except_state sup generalexcept).s_reg a1

  print_char-Prints :
      (i : ℕ) (s : Store)
      → Finishes
          (λ st s'. (st ≡ 1) × Prints sup s (s.chars (add32 (text_at s) i) ∷ s.paper) s')
          (print_char nucleus sup dev i s)
  unfolding print_char
  print_char-Prints i s =
      let b = dev_addr_base prntint dev in
      let x = s.chars (add32 (text_at s) i) in
      let w = upd (upd s.words (d_data0 b) x) (d_command b) 2 in
      let c : Call = record { number = 5; arg1 = prntint; arg2 = dev; arg3 = 0 } in
      let k : Store = record s {
        words = w;
        status = bit_and s.status iecbitoff;
        calls = c ∷ s.calls;
      } in
      let sent : w (d_data0 b) ≡ x =
        upd-other (upd s.words (d_data0 b) x) (d_command b) (d_data0 b) 2 (registers_apart b)
        ∙ upd-same s.words (d_data0 b) x in
      answered-Prints sup s k (x ∷ s.paper) (nucleus c k)
        (record { state = refl; text = refl; on_paper = refl })
        (subst (λ z. PrintsReady sup k (z ∷ s.paper) (nucleus c k)) sent
          (printer.print c k refl (upd-same (upd s.words (d_data0 b) x) (d_command b) 2)))

  -- A character, and the text behind it.
  then_Prints :
      (s s1 s' : Store) (n i : ℕ)
      → Prints sup s (s.chars (add32 (text_at s) i) ∷ s.paper) s1
      → Prints sup s1 (typed s1.chars (text_at s1) n (i + 1) s1.paper) s'
      → Prints sup s (typed s.chars (text_at s) (suc n) i s.paper) s'
  then_Prints s s1 s' n i h e = record {
    state = e.state ∙ h.state;
    text = e.text ∙ h.text;
    on_paper =
        e.on_paper
        ∙ (ap (λ c. typed c (text_at s1) n (i + 1) s1.paper) h.text
            ∙ (ap (λ (z : State). typed s.chars (z.s_reg a1) n (i + 1) s1.paper) h.state
                ∙ ap (typed s.chars (text_at s) n (i + 1)) h.on_paper));
  }

  -- The loop on the last `n` characters, from the index `i`.
  print_loop-Prints :
      (fuel n i st : ℕ) (s : Store)
      → n < fuel
      → n + i ≡ (s.sup_except_state sup generalexcept).s_reg a2
      → n + i < 0x8000_0000
      → (n ≡ 0 → st ≡ 1)
      → Finishes
          (λ end s'.
            (end.0 ≡ n + i)
            × ((end.1 ≡ 1) × Prints sup s (typed s.chars (text_at s) n i s.paper) s'))
          (print_loop nucleus fuel sup dev i st s)
  unfolding print_loop
  print_loop-Prints zero n i st s lt len small last = absurd (omega arith)
  print_loop-Prints (suc fuel) zero i st s lt len small last =
      let n_is : (s.sup_except_state sup generalexcept).s_reg a2 ≡ i = omega (arith, len) in
      let stop : slt i ((s.sup_except_state sup generalexcept).s_reg a2) ≡ false =
        ap (slt i) n_is ∙ (slt-small i i (omega arith) (omega arith) ∙ ltb_irrefl i) in
      simp stop (omega arith, (last refl, record { state = refl; text = refl; on_paper = refl }))
  print_loop-Prints (suc fuel) (suc n) i st s lt len small last =
      let x = s.chars (add32 (text_at s) i) in
      elim (Finishes-Finished (λ v s'. (v ≡ 1) × Prints sup s (x ∷ s.paper) s')
        (print_char nucleus sup dev i s) (print_char-Prints i s)) [
          | finished v s1 r1 h1 ↦
              let before : ltb i (suc n + i) ≡ true = ground arith in
              let go : slt i ((s.sup_except_state sup generalexcept).s_reg a2) ≡ true =
                ap (slt i) (sym len)
                ∙ (slt-small i (suc n + i) (omega arith) (omega arith) ∙ before) in
              simp (go, r1 ∙ ap (λ z. done z s1) h1.0)
                (Finishes-mono
                  (λ end s'.
                    (end.0 ≡ n + (i + 1))
                    × ((end.1 ≡ 1)
                        × Prints sup s1 (typed s1.chars (text_at s1) n (i + 1) s1.paper) s'))
                  (λ end s'.
                    (end.0 ≡ suc n + i)
                    × ((end.1 ≡ 1) × Prints sup s (typed s.chars (text_at s) (suc n) i s.paper) s'))
                  _
                  (print_loop-Prints fuel n (i + 1) 1 s1 (omega arith)
                    (omega (arith, len, ap (λ (z : State). z.s_reg a2) h1.1.state)) (omega arith)
                    (λ _. refl))
                  (λ end s' e. (omega (arith, e.0), (e.1.0, then_Prints s s1 s' n i h1.1 e.1.1))))
        ]

-- v0 is set, and the mutex is given back.
close-Prints :
    (nucleus : Nucleus) (sup : Ptr) (dev : ℕ) (u : Store) (m i : ℕ)
    → Printer nucleus sup dev
    → Finishes
        (λ _ s'. ((s'.sup_except_state sup generalexcept).s_reg v0 ≡ i) × (s'.paper ≡ u.paper))
        ((set_saved_reg sup v0 i >> (verho nucleus m >> skip)) u)
close-Prints nucleus sup dev u m i printer =
    let c : Call = record { number = 4; arg1 = m; arg2 = 0; arg3 = 0 } in
    let t : Store = record u {
      sup_except_state =
          with_saved u.sup_except_state sup generalexcept
            (set_reg (u.sup_except_state sup generalexcept) v0 i);
    } in
    let k : Store = record t { calls = c ∷ t.calls } in
    let reg : (t.sup_except_state sup generalexcept).s_reg v0 ≡ i = simp (==-refl sup) in
    elim (Finishes-Finished (λ _ s'. Prints sup t t.paper s') (syscall nucleus 4 m 0 0 t)
      (mutex-Prints sup t k (nucleus c k) (record { state = refl; text = refl; on_paper = refl })
        (printer.mutex c k (inr refl)))) [
          | finished v s' runs h ↦
              simp runs (ap (λ (z : State). z.s_reg v0) h.state ∙ reg, h.on_paper)
        ]

abbrev printer_of : Store → Ptr → ℕ
printer_of s sup = sub32 (s.sup_asid sup) 1

-- With a printer that answers READY `WRITE_TO_PRINTER` on a text of 1 to 128 characters in user space
-- returns, the characters are on the paper, each once and in order, and v0 is their number. SYS3 and
-- SYS4 return, and other processes leave the state and the text of the caller and the paper alone.
pub write_to_printer-Prints :
    (nucleus : Nucleus) (sup : Ptr) (s : Store) (n : ℕ)
    → Printer nucleus sup (sub32 (s.sup_asid sup) 1)
    → helper_check_string_outside_addr_space ((s.sup_except_state sup generalexcept).s_reg a1)
      ≡ false
    → (s.sup_except_state sup generalexcept).s_reg a2 ≡ n
    → 0 < n
    → n ≤ str_max
    → Finishes
        (λ _ s'.
          ((s'.sup_except_state sup generalexcept).s_reg v0 ≡ n)
          × (s'.paper
              ≡ typed s.chars ((s.sup_except_state sup generalexcept).s_reg a1) n 0 s.paper))
        (write_to_printer nucleus sup s)
unfolding write_to_printer check_string
write_to_printer-Prints nucleus sup s n printer inside len pos le =
    let dev = printer_of s sup in
    let m = int_elem s.statics.mutex (dev_sem_idx prntint dev 0) in
    let low : slt ((s.sup_except_state sup generalexcept).s_reg a2) 0 ≡ false =
      ap (λ z. slt z 0) len ∙ (slt-small n 0 (omega arith) (omega arith) ∙ (ground arith)) in
    let high : slt str_max ((s.sup_except_state sup generalexcept).s_reg a2) ≡ false =
      ap (slt str_max) len ∙ (slt-small str_max n (omega arith) (omega arith) ∙ (ground arith)) in
    let c : Call = record { number = 3; arg1 = m; arg2 = 0; arg3 = 0 } in
    let k : Store = record s { calls = c ∷ s.calls } in
    elim (Finishes-Finished (λ _ s'. Prints sup s s.paper s') (syscall nucleus 3 m 0 0 s)
      (mutex-Prints sup s k (nucleus c k) (record { state = refl; text = refl; on_paper = refl })
        (printer.mutex c k (inl refl)))) [
          | finished v s1 r1 h1 ↦
              elim (Finishes-Finished
                (λ end s'.
                  (end.0 ≡ n + 0)
                  × ((end.1 ≡ 1)
                      × Prints sup s1
                          (typed s1.chars (text_at nucleus sup dev printer s1) n 0 s1.paper) s'))
                (print_loop nucleus 129 sup dev 0 s1.junk s1)
                (print_loop-Prints nucleus sup dev printer 129 n 0 s1.junk s1 (omega arith)
                  (omega (arith, len, ap (λ (z : State). z.s_reg a2) h1.state)) (omega arith)
                  (λ z. absurd (omega arith)))) [
                    | finished end s2 r2 h2 ↦
                        let same_text : typed s1.chars
                              ((s1.sup_except_state sup generalexcept).s_reg a1) n 0 s1.paper
                            ≡ typed s.chars ((s.sup_except_state sup generalexcept).s_reg a1) n 0
                                s.paper =
                          ap
                            (λ f.
                              typed f ((s1.sup_except_state sup generalexcept).s_reg a1) n 0
                                s1.paper)
                            h1.text
                          ∙ (ap (λ (z : State). typed s.chars (z.s_reg a1) n 0 s1.paper) h1.state
                              ∙ ap
                                  (typed s.chars ((s.sup_except_state sup generalexcept).s_reg a1) n
                                    0)
                                  h1.on_paper) in
                        let i_is : end.0 ≡ n = omega (arith, h2.0) in
                        simp (inside, low, high, r1, r2, h2.1.0)
                          (Finishes-mono
                            (λ _ s'.
                              ((s'.sup_except_state sup generalexcept).s_reg v0 ≡ end.0)
                              × (s'.paper ≡ s2.paper))
                            (λ _ s'.
                              ((s'.sup_except_state sup generalexcept).s_reg v0 ≡ n)
                              × (s'.paper
                                  ≡ typed s.chars ((s.sup_except_state sup generalexcept).s_reg a1)
                                      n 0 s.paper))
                            _ (close-Prints nucleus sup dev s2 m end.0 printer)
                            (λ _ s' e. (e.0 ∙ i_is, e.1 ∙ (h2.1.1.on_paper ∙ same_text))))
                  ]
        ]
