-- ===== src/Base/Words.antt =====
-- 32-bit words as bit patterns: `int`, `unsigned int` and addresses are numbers below 2 ^ 32.
use Prim.Native.Nat.{ℕ, ◌+◌, ◌-◌, ◌*◌, ◌/◌, ◌%◌, ◌^◌}
use mathlib.Core.Bool.{Bool, not, ◌||◌}
use operating_system_cs.Base.Tests.{leb, ◌==◌, if◌then◌else◌}

abbrev pub word_mod : ℕ
word_mod = 0x1_0000_0000

-- `a + b`, `a - b`, `a * b` on `int` and `unsigned int`.
abbrev pub add32 : ℕ → ℕ → ℕ
add32 a b = (a + b) % word_mod

abbrev pub sub32 : ℕ → ℕ → ℕ
sub32 a b = (a + word_mod - b) % word_mod

abbrev pub mul32 : ℕ → ℕ → ℕ
mul32 a b = (a * b) % word_mod

-- `a < 0` and `a <= 0` on `int`.
abbrev pub is_neg : ℕ → Bool
is_neg a = leb 0x8000_0000 a

abbrev pub le_zero : ℕ → Bool
le_zero a = is_neg a || a == 0

-- `a >> k` on `unsigned int`, and `a << k`.
abbrev pub shr : ℕ → ℕ → ℕ
shr a k = a / 2 ^ k

abbrev pub shl : ℕ → ℕ → ℕ
shl a k = (a * 2 ^ k) % word_mod

-- `a > 0` and `a <= b` on `int`, and `a >> k` on `int`, which keeps the sign.
abbrev pub gt_zero : ℕ → Bool
gt_zero a = not (le_zero a)

abbrev pub sle : ℕ → ℕ → Bool
sle a b = leb (add32 a 0x8000_0000) (add32 b 0x8000_0000)

abbrev pub sar : ℕ → ℕ → ℕ
sar a k = if is_neg a then shr a k + (word_mod - 2 ^ (32 - k)) else shr a k
