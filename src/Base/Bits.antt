-- ===== src/Base/Bits.antt =====
-- Shifts, and the meaning of `|` on disjoint fields and of `&` with a mask of low ones.
use Prim.Native.Nat.{
  ℕ, zero, suc, ◌+◌, ◌-◌, ◌*◌, ◌/◌, ◌%◌, ◌^◌, ◌≤◌, ◌<◌, min, max, bit_and, bit_or, digits, bitwise,
  bit_and-bitwise, bit_or-bitwise,
}
use mathlib.Core.Path.{◌≡◌, refl, ap}
use native.Mathlib.Nat.{pow-suc, one-le-pow}
use native.Mathlib.Omega.{arith}

infixl 75 ◌<<<◌ ◌>>>◌
abbrev pub ◌<<<◌ : ℕ → ℕ → ℕ
x <<< k = x * 2 ^ k

abbrev pub ◌>>>◌ : ℕ → ℕ → ℕ
x >>> k = x / 2 ^ k

module _ (rest : ℕ → ℕ) (bit : ℕ → ℕ → ℕ) where
  -- More fuel than digits changes nothing.
  digits_more : (n m x y : ℕ) → x ≤ n → x ≤ m → digits rest bit n x y ≡ digits rest bit m x y
  digits_more zero zero zero y hn hm = refl
  digits_more zero zero (suc x) y hn hm = absurd (omega arith)
  digits_more zero (suc m) zero y hn hm = refl
  digits_more zero (suc m) (suc x) y hn hm = absurd (omega arith)
  digits_more (suc n) zero zero y hn hm = refl
  digits_more (suc n) zero (suc x) y hn hm = absurd (omega arith)
  digits_more (suc n) (suc m) zero y hn hm = refl
  digits_more (suc n) (suc m) (suc x) y hn hm =
      rw (digits_more n m (suc x / 2) (y / 2) (omega arith) (omega arith))

  bitwise_step :
      (x y : ℕ)
      → bitwise rest bit (suc x) y
        ≡ bitwise rest bit (suc x / 2) (y / 2) * 2 + bit (suc x % 2) (y % 2)
  bitwise_step x y =
      omega (arith, digits_more x (suc x / 2) (suc x / 2) (y / 2) (omega arith) (omega arith))

or_step : (x y : ℕ) → bit_or x y ≡ bit_or (x / 2) (y / 2) * 2 + max (x % 2) (y % 2)
or_step zero y = omega (arith, bit_or-bitwise 0 y, bit_or-bitwise 0 (y / 2))
or_step (suc x) y = omega (
  arith,
  bit_or-bitwise (suc x) y,
  bit_or-bitwise (suc x / 2) (y / 2),
  bitwise_step (λ b. b) max x y,
)

and_step : (x y : ℕ) → bit_and x y ≡ bit_and (x / 2) (y / 2) * 2 + min (x % 2) (y % 2)
and_step zero y = omega (arith, bit_and-bitwise 0 y, bit_and-bitwise 0 (y / 2))
and_step (suc x) y = omega (
  arith,
  bit_and-bitwise (suc x) y,
  bit_and-bitwise (suc x / 2) (y / 2),
  bitwise_step (λ b. 0) min x y,
)

or_zero_below : (n x : ℕ) → x ≤ n → bit_or x 0 ≡ x
or_zero_below n zero h = refl
or_zero_below zero (suc x) h = absurd (omega arith)
or_zero_below (suc n) (suc x) h =
    omega (arith, or_step (suc x) 0, or_zero_below n (suc x / 2) (omega arith))

and_zero_below : (n x : ℕ) → x ≤ n → bit_and x 0 ≡ 0
and_zero_below n zero h = refl
and_zero_below zero (suc x) h = absurd (omega arith)
and_zero_below (suc n) (suc x) h =
    omega (arith, and_step (suc x) 0, and_zero_below n (suc x / 2) (omega arith))

-- `hi << k | lo` is a sum where `lo` has at most `k` bits.
pub bit_or-shift : (k hi lo : ℕ) → lo < 2 ^ k → bit_or (hi <<< k) lo ≡ hi * 2 ^ k + lo
bit_or-shift zero hi lo h = ground (arith, or_zero_below hi hi)
bit_or-shift (suc k) hi lo h = ground (
  arith,
  pow-suc 2 k,
  ap (λ (t : ℕ). hi * t) (pow-suc 2 k),
  or_step (hi * 2 ^ suc k) lo,
  bit_or-shift k hi (lo / 2) (omega (arith, pow-suc 2 k)),
)

and_mask_fields : (k hi lo : ℕ) → lo < 2 ^ k → bit_and (hi * 2 ^ k + lo) (2 ^ k - 1) ≡ lo
and_mask_fields zero hi lo h =
    omega (arith, and_zero_below (hi * 1 + lo) (hi * 1 + lo) (omega arith))
and_mask_fields (suc k) hi lo h = ground (
  arith,
  pow-suc 2 k,
  ap (λ (t : ℕ). hi * t) (pow-suc 2 k),
  one-le-pow k 2,
  and_step (hi * 2 ^ suc k + lo) (2 ^ suc k - 1),
  and_mask_fields k hi (lo / 2) (omega (arith, pow-suc 2 k)),
)

-- `x & (2^k - 1)` is the remainder by `2^k`.
pub bit_and-mask : (k x : ℕ) → bit_and x (2 ^ k - 1) ≡ x % 2 ^ k
bit_and-mask k x = ground (arith, one-le-pow k 2, and_mask_fields k (x / 2 ^ k) (x % 2 ^ k))
