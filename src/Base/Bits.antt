-- ===== src/Base/Bits.antt =====
-- The binary digits of a number, and those of `bit_and`.
use Prim.Native.Nat.{ℕ, zero, suc, ◌/◌, ◌%◌, ◌≤◌, min, bit_and, digits, bit_and-bitwise}
use mathlib.Core.Path.{◌≡◌, refl, ap, ◌∙◌}
use native.Mathlib.Omega.{arith}

-- Digit `k` of a number, by halving.
unfoldable pub digit : ℕ → ℕ → ℕ
digit zero a = a % 2
digit (suc k) a = digit k (a / 2)

digit-zero : (k : ℕ) → digit k 0 ≡ 0
unfolding digit
digit-zero zero = refl
digit-zero (suc k) = digit-zero k

digit-digits :
    (k n a b : ℕ) → a ≤ n → digit k (digits (λ b. zero) min n a b) ≡ min (digit k a) (digit k b)
unfolding digit
digit-digits k zero zero b le = omega (arith, digit-zero k)
digit-digits k zero (suc a) b le = absurd (omega arith)
digit-digits k (suc n) zero b le = omega (arith, digit-zero k)
digit-digits zero (suc n) (suc a) b le = omega arith
digit-digits (suc k) (suc n) (suc a) b le =
    ap (digit k) half ∙ digit-digits k n (suc a / 2) (b / 2) (omega arith)
  where
    half :
        digits (λ b. zero) min (suc n) (suc a) b / 2 ≡ digits (λ b. zero) min n (suc a / 2) (b / 2)
    half = omega arith

pub digit-bit_and : (k a b : ℕ) → digit k (bit_and a b) ≡ min (digit k a) (digit k b)
digit-bit_and k a b = ap (digit k) (bit_and-bitwise a b) ∙ digit-digits k a a b (omega arith)
