-- ===== src/Prelude/Bits.antt =====
-- `hi << 8 | lo` on bytes. The native `bit_or` has no laws at variables, so its digit recursion is
-- unrolled here once.
use Prim.Native.Nat.{
  ℕ, zero, suc, ◌+◌, ◌*◌, ◌/◌, ◌%◌, ◌≤◌, ◌<◌, max, bit_or, digits, bit_or-bitwise,
}
use mathlib.Core.Path.{◌≡◌, refl, ap}
use native.Mathlib.Omega.{arith}

abbrev or_digits : ℕ → ℕ → ℕ → ℕ
or_digits n a b = digits (λ b. b) max n a b

or_digits_fuel : (n m a b : ℕ) → a ≤ n → a ≤ m → or_digits n a b ≡ or_digits m a b
or_digits_fuel zero zero a b p q = refl
or_digits_fuel zero (suc m) zero b p q = refl
or_digits_fuel zero (suc m) (suc a) b p q = absurd (omega arith)
or_digits_fuel (suc n) zero zero b p q = refl
or_digits_fuel (suc n) zero (suc a) b p q = absurd (omega arith)
or_digits_fuel (suc n) (suc m) zero b p q = refl
or_digits_fuel (suc n) (suc m) (suc a) b p q =
    omega (arith, or_digits_fuel n m (suc a / 2) (b / 2) (omega arith) (omega arith))

pub zero-bit_or : (b : ℕ) → bit_or 0 b ≡ b
zero-bit_or b = bit_or-bitwise 0 b

bit_or_step : (a b : ℕ) → bit_or a b ≡ bit_or (a / 2) (b / 2) * 2 + max (a % 2) (b % 2)
bit_or_step zero b = omega (arith, zero-bit_or b, zero-bit_or (b / 2))
bit_or_step (suc a) b = omega (
  arith,
  bit_or-bitwise (suc a) b,
  bit_or-bitwise (suc a / 2) (b / 2),
  or_digits_fuel a (suc a / 2) (suc a / 2) (b / 2) (omega arith) (omega arith),
)

bit_or-zero_fuel : (n a : ℕ) → a ≤ n → bit_or a 0 ≡ a
bit_or-zero_fuel n zero h = zero-bit_or 0
bit_or-zero_fuel zero (suc a) h = absurd (omega arith)
bit_or-zero_fuel (suc n) (suc a) h =
    omega (arith, bit_or_step (suc a) 0, bit_or-zero_fuel n (suc a / 2) (omega arith))

bit_or-zero : (a : ℕ) → bit_or a 0 ≡ a
bit_or-zero a = bit_or-zero_fuel a a (omega arith)

-- A shift by `k + 1` bits, from one by `k`.
or_shift_step :
    (a b m : ℕ)
    → ((c d : ℕ) → d < m → bit_or (c * m) d ≡ c * m + d)
    → b < 2 * m
    → bit_or (a * (2 * m)) b ≡ a * (2 * m) + b
or_shift_step a b m ih h =
    omega (arith, bit_or_step (a * (2 * m)) b, ih a (b / 2) (omega arith), half)
  where
    half : bit_or (a * (2 * m) / 2) (b / 2) ≡ bit_or (a * m) (b / 2)
    half = ap (λ (x : ℕ). bit_or x (b / 2)) (omega arith)

or_shift_0 : (a b : ℕ) → b < 1 → bit_or (a * 1) b ≡ a * 1 + b
or_shift_0 a zero h = omega (arith, bit_or-zero (a * 1))
or_shift_0 a (suc b) h = absurd (omega arith)

or_shift_1 : (a b : ℕ) → b < 2 → bit_or (a * 2) b ≡ a * 2 + b
or_shift_1 a b h = or_shift_step a b 1 or_shift_0 h

or_shift_2 : (a b : ℕ) → b < 4 → bit_or (a * 4) b ≡ a * 4 + b
or_shift_2 a b h = or_shift_step a b 2 or_shift_1 h

or_shift_3 : (a b : ℕ) → b < 8 → bit_or (a * 8) b ≡ a * 8 + b
or_shift_3 a b h = or_shift_step a b 4 or_shift_2 h

or_shift_4 : (a b : ℕ) → b < 16 → bit_or (a * 16) b ≡ a * 16 + b
or_shift_4 a b h = or_shift_step a b 8 or_shift_3 h

or_shift_5 : (a b : ℕ) → b < 32 → bit_or (a * 32) b ≡ a * 32 + b
or_shift_5 a b h = or_shift_step a b 16 or_shift_4 h

or_shift_6 : (a b : ℕ) → b < 64 → bit_or (a * 64) b ≡ a * 64 + b
or_shift_6 a b h = or_shift_step a b 32 or_shift_5 h

or_shift_7 : (a b : ℕ) → b < 128 → bit_or (a * 128) b ≡ a * 128 + b
or_shift_7 a b h = or_shift_step a b 64 or_shift_6 h

-- The high byte shifted by eight and the low byte do not overlap.
pub bit_or-shift : (hi lo : ℕ) → lo < 256 → bit_or (hi * 256) lo ≡ hi * 256 + lo
bit_or-shift hi lo h = or_shift_step hi lo 128 or_shift_7 h
