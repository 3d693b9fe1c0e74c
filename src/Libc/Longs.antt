-- ===== src/Libc/Longs.antt =====
-- Sums of the type `long long`: wrapping around after each step is wrapping around once.
use hsed.Base.{◌≡◌, ap, ◌∙◌, ℤ, pos, negsuc, ◌+ℤ◌, +ℤ_comm, +ℤ_assoc, zero-+ℤ, arith}
use hsed.Libc.{to_i64, add_long}
use hsed.Libc.Numbers.{IsLong}

pub to_i64_lem : (z : ℤ) → IsLong z → to_i64 z ≡ z
unfolding to_i64
to_i64_lem (pos n) h = ground arith
to_i64_lem (negsuc n) h = ground arith

pub to_i64-IsLong : (z : ℤ) → IsLong (to_i64 z)
unfolding to_i64
to_i64-IsLong z = ground (arith)

-- Wrapping either summand around before an addition makes no difference.
pub to_i64-wraps : (a b : ℤ) → to_i64 (to_i64 a +ℤ b) ≡ to_i64 (a +ℤ b)
unfolding to_i64 ◌+ℤ◌
to_i64-wraps a b = ground (arith)

pub add_long-wraps : (a b : ℤ) → add_long (to_i64 a) b ≡ to_i64 (a +ℤ b)
unfolding add_long
add_long-wraps a b = to_i64-wraps a b

pub add_long-wraps_right : (a b : ℤ) → add_long a (to_i64 b) ≡ to_i64 (a +ℤ b)
unfolding add_long
add_long-wraps_right a b =
    ap to_i64 (+ℤ_comm a (to_i64 b)) ∙ to_i64-wraps b a ∙ ap to_i64 (+ℤ_comm b a)

pub to_i64-wraps_left : (a b c : ℤ) → to_i64 (add_long a b +ℤ c) ≡ to_i64 (a +ℤ (b +ℤ c))
unfolding add_long
to_i64-wraps_left a b c = to_i64-wraps (a +ℤ b) c ∙ ap to_i64 (+ℤ_assoc a b c)

-- A sum that goes on from nothing.
pub to_i64-zero_plus : (a : ℤ) → to_i64 (pos 0 +ℤ a) ≡ to_i64 a
to_i64-zero_plus a = ap to_i64 (zero-+ℤ a)

pub to_i64-plus_zero : (a : ℤ) → IsLong a → to_i64 (a +ℤ pos 0) ≡ a
to_i64-plus_zero a h = ap to_i64 (+ℤ_comm a (pos 0) ∙ zero-+ℤ a) ∙ to_i64_lem a h

pub add_long-IsLong : (a b : ℤ) → IsLong (add_long a b)
unfolding add_long
add_long-IsLong a b = to_i64-IsLong (a +ℤ b)
