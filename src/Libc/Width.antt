-- ===== src/Libc/Width.antt =====
-- How many bytes a printed number takes.
use hsed.Base.{
  ℕ, zero, suc, ◌+◌, ◌/◌, ◌%◌, ◌^◌, ◌≤◌, ◌<◌, ℤ, pos, negsuc, List, [], ◌∷◌, length, digits_before,
  show_ℕ, show_ℤ, arith,
}
use hsed.Libc.Numbers.{IsLong}

length-digits_before :
    (fuel k n : ℕ) (s : List ℕ)
    → n < 10 ^ suc k
    → length (digits_before fuel n s) ≤ suc k + length s
unfolding digits_before
length-digits_before zero k n s h = omega arith
length-digits_before (suc fuel) zero n s h = ground arith
length-digits_before (suc fuel) (suc k) n s h =
    ground (arith, length-digits_before fuel k (n / 10) ((48 + n % 10) ∷ s))

length-show_ℕ : (k n : ℕ) → n < 10 ^ suc k → length (show_ℕ n) ≤ suc k
unfolding show_ℕ
length-show_ℕ k n h = omega (arith, length-digits_before (suc n) k n [] h)

-- A 64-bit word takes at most 20 bytes, and a `long` does so too.
pub length-show_ℤ_word : (n : ℕ) → n < 2 ^ 64 → length (show_ℤ (pos n)) ≤ 20
unfolding show_ℤ
length-show_ℤ_word n h = length-show_ℕ 19 n (omega arith)

pub length-show_ℤ_long : (z : ℤ) → IsLong z → length (show_ℤ z) ≤ 20
unfolding show_ℤ
length-show_ℤ_long (pos n) h = length-show_ℕ 19 n (omega arith)
length-show_ℤ_long (negsuc n) h = omega (arith, length-show_ℕ 18 (suc n))
