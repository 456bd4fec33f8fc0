-- ===== src/Base/Bits.antt =====
-- The bit operation by which two words are joined: `(high << 32) | low` is a sum.
use Prim.Native.Nat.{
  ℕ, zero, suc, ◌+◌, ◌*◌, ◌/◌, ◌^◌, ◌≤◌, ◌<◌, bit_or, bit_or-bitwise, digits, max,
}
use mathlib.Core.Path.{◌≡◌, refl}
use native.Mathlib.Omega.{arith}

abbrev or_digits : ℕ → ℕ → ℕ → ℕ
or_digits n a b = digits (λ c. c) max n a b

-- `h << k`
shift : ℕ → ℕ → ℕ
shift zero h = h
shift (suc k) h = shift k h * 2

or_digits-shift : (k n a h b : ℕ) → a ≡ shift k h → a ≤ n → b < shift k 1 → or_digits n a b ≡ a + b
unfolding shift
or_digits-shift k zero zero h b e le lt = omega arith
or_digits-shift k (suc n) zero h b e le lt = omega arith
or_digits-shift k zero (suc a) h b e le lt = absurd (omega arith)
or_digits-shift zero (suc n) (suc a) h b e le lt =
    omega (
      arith,
      or_digits-shift zero n (suc a / 2) (suc a / 2) (b / 2) refl (omega arith) (omega arith),
    )
or_digits-shift (suc k) (suc n) (suc a) h b e le lt =
    omega
      (arith, or_digits-shift k n (suc a / 2) h (b / 2) (omega arith) (omega arith) (omega arith))

pub bit_or_add : (high low : ℕ) → low < 2 ^ 32 → bit_or (high * 2 ^ 32) low ≡ high * 2 ^ 32 + low
unfolding shift
bit_or_add high low h = omega (
  arith,
  bit_or-bitwise (high * 2 ^ 32) low,
  or_digits-shift 32 (high * 2 ^ 32) (high * 2 ^ 32) high low (omega arith) (omega arith)
      (omega arith),
)
