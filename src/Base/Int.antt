-- ===== src/Base/Int.antt =====
-- Signed integers over the native numbers: `pid_t`, `int`, `off_t` and `long long` values.
use Prim.Native.Nat.{ℕ, suc, ◌+◌, ◌-◌, ◌≤◌}
use mathlib.Core.Path.{◌≡◌, ap, sym, ◌∙◌}
use mathlib.Core.Logic.{◌≢◌, inl, inr}
use mathlib.Core.Bool.{Bool, true, false}
use native.Mathlib.Omega.{arith}
use hsed.Base.Tests.{ltb, leb, ◌==◌, if◌then◌else◌, Bool-cases}

-- `negsuc n` is -(n + 1).
pub data ℤ : Type 0 where
  pos : ℕ → ℤ
  negsuc : ℕ → ℤ

abbrev pub pos_part : ℤ → ℕ
pos_part (pos n) = n
pos_part (negsuc n) = 0

abbrev pub neg_part : ℤ → ℕ
neg_part (pos n) = 0
neg_part (negsuc n) = suc n

-- a - b, as an integer.
abbrev pub sub_ℕ : ℕ → ℕ → ℤ
sub_ℕ a b = if leb b a then pos (a - b) else negsuc (b - a - 1)

infixl 65 ◌+ℤ◌
infix 50 ◌≤ℤ◌
unfoldable pub ◌+ℤ◌ : ℤ → ℤ → ℤ
a +ℤ b = sub_ℕ (pos_part a + pos_part b) (neg_part a + neg_part b)

abbrev pub ◌≤ℤ◌ : ℤ → ℤ → Type 0
a ≤ℤ b = pos_part a + neg_part b ≤ pos_part b + neg_part a

abbrev pub ltb_ℤ : ℤ → ℤ → Bool
ltb_ℤ a b = ltb (pos_part a + neg_part b) (pos_part b + neg_part a)

abbrev pub eqb_ℤ : ℤ → ℤ → Bool
eqb_ℤ (pos m) (pos n) = m == n
eqb_ℤ (negsuc m) (negsuc n) = m == n
eqb_ℤ (pos m) (negsuc n) = false
eqb_ℤ (negsuc m) (pos n) = false

pub eqb_ℤ→eq : (a b : ℤ) → eqb_ℤ a b ≡ true → a ≡ b
eqb_ℤ→eq (pos m) (pos n) h = ap pos (ground arith)
eqb_ℤ→eq (negsuc m) (negsuc n) h = ap negsuc (ground arith)
eqb_ℤ→eq (pos m) (negsuc n) h = cc
eqb_ℤ→eq (negsuc m) (pos n) h = cc

pub eqb_ℤ_refl : (a : ℤ) → eqb_ℤ a a ≡ true
eqb_ℤ_refl (pos m) = ground arith
eqb_ℤ_refl (negsuc m) = ground arith

pub ne→eqb_ℤ : (a b : ℤ) → a ≢ b → eqb_ℤ a b ≡ false
ne→eqb_ℤ a b h = elim (Bool-cases (eqb_ℤ a b)) [
  | inl same ↦ absurd (h (eqb_ℤ→eq a b same))
  | inr other ↦ other
]

pub eqb_ℤ→ne : (a b : ℤ) → eqb_ℤ a b ≡ false → a ≢ b
eqb_ℤ→ne a b h e = cc (ap (eqb_ℤ a) (sym e), eqb_ℤ_refl a)

-- What equals the first of two different numbers differs from the second.
pub eqb_ℤ_apart : (a b c : ℤ) → eqb_ℤ a b ≡ false → eqb_ℤ a c ≡ true → eqb_ℤ b c ≡ false
eqb_ℤ_apart a b c h k = ne→eqb_ℤ b c (λ e. eqb_ℤ→ne a b h (eqb_ℤ→eq a c k ∙ sym e))

pub +ℤ_comm : (a b : ℤ) → a +ℤ b ≡ b +ℤ a
unfolding ◌+ℤ◌
+ℤ_comm a b = ground arith

pub +ℤ_assoc : (a b c : ℤ) → a +ℤ b +ℤ c ≡ a +ℤ (b +ℤ c)
unfolding ◌+ℤ◌
+ℤ_assoc a b c = ground arith

pub zero-+ℤ : (a : ℤ) → pos 0 +ℤ a ≡ a
unfolding ◌+ℤ◌
zero-+ℤ a = ground arith
