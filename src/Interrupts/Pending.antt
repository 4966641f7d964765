-- ===== src/Interrupts/Pending.antt =====
-- The tests of phase2/interrupts.c for a pending interrupt: a shift to the sign and back.
use operating_system_cs.Base.{
  ℕ, zero, suc, ◌-◌, ◌/◌, ◌%◌, ◌^◌, ◌<◌, ◌≡◌, ◌≢◌, refl, ap, ◌∙◌, Bool, true, false, not, arith,
  ◌==◌, if◌then◌else◌, Bool-cases, inl, inr, is_neg, shl, shr, sar, bit_and,
}
use operating_system_cs.Ring.{Ptr, null}
use operating_system_cs.Kernel.{Kernel}
use operating_system_cs.Kernel.Const.{ipbits}
use operating_system_cs.Kernel.Run.{ok, pure, ne_null}
use operating_system_cs.Interrupts.Defs.{helper_check_interrupt_line, helper_check_interrupt_device}

-- Bit `i` of a number.
abbrev pub bit_at : ℕ → ℕ → Bool
bit_at x i = (x / 2 ^ i) % 2 == 1

sign_lost : (w : ℕ) → w < 0x1_0000_0000 → (sar w 31 == 0) ≡ not (is_neg w)
sign_lost w lt = elim (Bool-cases (is_neg w)) [
  | inl e ↦ ground (arith, e, lt)
  | inr e ↦ ground (arith, e, lt)
]

sign_bit : (x i : ℕ) → i < 8 → is_neg (shl x (31 - i)) ≡ bit_at x i
sign_bit x zero lt = ground arith
sign_bit x (suc zero) lt = ground arith
sign_bit x (suc (suc zero)) lt = ground arith
sign_bit x (suc (suc (suc zero))) lt = ground arith
sign_bit x (suc (suc (suc (suc zero)))) lt = ground arith
sign_bit x (suc (suc (suc (suc (suc zero))))) lt = ground arith
sign_bit x (suc (suc (suc (suc (suc (suc zero)))))) lt = ground arith
sign_bit x (suc (suc (suc (suc (suc (suc (suc zero))))))) lt = ground arith
sign_bit x (suc (suc (suc (suc (suc (suc (suc (suc i)))))))) lt = absurd (omega (arith, lt))

test_bit : (x i : ℕ) → i < 8 → (sar (shl x (31 - i)) 31 == 0) ≡ not (bit_at x i)
test_bit x i lt = sign_lost (shl x (31 - i)) (omega arith) ∙ ap not (sign_bit x i lt)

answer : (b : Bool) (k : Kernel) → (if not b then pure false else pure true) k ≡ ok b k
answer true k = refl
answer false k = refl

-- `helper_check_interrupt_device` answers whether the bit of the device is set in the bit map of the
-- line, for the device numbers below 8, and changes nothing.
pub helper_check_interrupt_device-bit_at :
    (k : Kernel) (i : ℕ) (map : Ptr)
    → i < 8
    → map ≢ null
    → helper_check_interrupt_device i map k ≡ ok (bit_at (k.words map) i) k
unfolding helper_check_interrupt_device
helper_check_interrupt_device-bit_at k i map lt ne =
    simp (ne_null map ne, test_bit (k.words map) i lt) (answer (bit_at (k.words map) i) k)

-- `helper_check_interrupt_line` answers whether the bit of the line is set in the field of the pending
-- interrupts of the saved cause, for the lines below 8, and changes nothing.
pub helper_check_interrupt_line-bit_at :
    (k : Kernel) (i : ℕ)
    → i < 8
    → helper_check_interrupt_line i k ≡ ok (bit_at (shr (bit_and k.bios.s_cause ipbits) 8) i) k
unfolding helper_check_interrupt_line
helper_check_interrupt_line-bit_at k i lt =
    simp (test_bit (shr (bit_and k.bios.s_cause ipbits) 8) i lt)
      (answer (bit_at (shr (bit_and k.bios.s_cause ipbits) 8) i) k)
