-- ===== src/UserCalls/Print/Ready.antt =====
-- A printer that answers READY (phase3/sysSupport.c).
use operating_system_cs.Base.{
  ℕ, zero, suc, ◌+◌, ◌<◌, ◌≡◌, ◌∙◌, ◌⊎◌, false, arith, ◌==◌, ltb, List, ◌∷◌, add32,
}
use operating_system_cs.Ring.{Ptr}
use operating_system_cs.Kernel.Const.{dev_addr_base, generalexcept}
use operating_system_cs.Support.{Call, Store}
use operating_system_cs.Support.Const.{d_command, d_data0, prntint}
use operating_system_cs.Support.Code.{Nucleus, Answer, back, gone, pure, answered, after, ◌>>◌}
use operating_system_cs.Support.Machine.{slt, interrupts_on}
use operating_system_cs.Support.Logic.{Finishes}

-- The state of the process and its text stay; the paper is `out`.
pub record Prints (sup : Ptr) (s : Store) (out : List ℕ) (s' : Store) : Type 0 where
  pub state : s'.sup_except_state sup generalexcept ≡ s.sup_except_state sup generalexcept
  pub text : s'.chars ≡ s.chars
  pub on_paper : s'.paper ≡ out

abbrev pub PrintsReady : Ptr → Store → List ℕ → Answer → Type 0
PrintsReady sup s out (back v s') = (v ≡ 1) × Prints sup s out s'
PrintsReady sup s out (gone s') = ⊥

abbrev pub PrintsNothing : Ptr → Store → Answer → Type 0
PrintsNothing sup s (back v s') = Prints sup s s.paper s'
PrintsNothing sup s (gone s') = ⊥

-- SYS3 and SYS4 return, SYS5 on the printer `dev` after the command to print returns READY with the
-- character in its data register printed, and other processes leave the state and the text of the caller and the paper alone.
pub record Printer (nucleus : Nucleus) (sup : Ptr) (dev : ℕ) : Type 0 where
  pub mutex :
      (c : Call) (s : Store) → (c.number ≡ 3) ⊎ (c.number ≡ 4) → PrintsNothing sup s (nucleus c s)
  pub print :
      (c : Call) (s : Store)
      → c ≡ record { number = 5; arg1 = prntint; arg2 = dev; arg3 = 0 }
      → s.words (d_command (dev_addr_base prntint dev)) ≡ 2
      → PrintsReady sup s (s.words (d_data0 (dev_addr_base prntint dev)) ∷ s.paper) (nucleus c s)

-- `n` characters of the text from the index `i` on, put on the paper `out`.
abbrev pub typed : (Ptr → ℕ) → Ptr → (n i : ℕ) → List ℕ → List ℕ
typed chars text zero i out = out
typed chars text (suc n) i out = typed chars text n (i + 1) (chars (add32 text i) ∷ out)

pub slt-small : (a b : ℕ) → a < 0x8000_0000 → b < 0x8000_0000 → slt a b ≡ ltb a b
slt-small a b ha hb = ground (arith, ha, hb)

pub ltb_irrefl : (a : ℕ) → ltb a a ≡ false
ltb_irrefl a = ground arith

pub registers_apart : (b : Ptr) → (d_data0 b == d_command b) ≡ false
registers_apart b = ground arith

-- Behind the wait for the printer the interrupts go on.
pub answered-Prints :
    (sup : Ptr) (s k : Store) (out : List ℕ) (a : Answer)
    → Prints sup s s.paper k
    → PrintsReady sup k out a
    → Finishes
        (λ st s'. (st ≡ 1) × Prints sup s out s')
        (after (answered a) (λ st. interrupts_on >> pure st))
answered-Prints sup s k out (back v u) same h = (
  h.0,
  record { state = h.1.state ∙ same.state; text = h.1.text ∙ same.text; on_paper = h.1.on_paper },
)
answered-Prints sup s k out (gone u) same h = absurd h

-- A call on a mutex.
pub mutex-Prints :
    (sup : Ptr) (s k : Store) (a : Answer)
    → Prints sup s s.paper k
    → PrintsNothing sup k a
    → Finishes (λ _ s'. Prints sup s s.paper s') (answered a)
mutex-Prints sup s k (back v u) same h = record {
  state = h.state ∙ same.state;
  text = h.text ∙ same.text;
  on_paper = h.on_paper ∙ same.on_paper;
}
mutex-Prints sup s k (gone u) same h = absurd h
