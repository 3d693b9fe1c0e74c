-- ===== src/Base.antt =====
-- The names that the other modules share: the libraries', passed on, and those of the children.
mod Tests
mod Lists
mod Bits
mod Int
mod Text
mod Ranges
pub use Tests.*
pub use Lists.*
pub use Bits.*
pub use Text.{codes}
unfoldable pub use Text.{c_string, digits_before, show_ℕ, show_ℤ}
pub use Int.{
  ℤ, pos, negsuc, pos_part, neg_part, sub_ℕ, ◌≤ℤ◌, ltb_ℤ, eqb_ℤ, eqb_ℤ→eq, eqb_ℤ_refl, ne→eqb_ℤ,
  eqb_ℤ→ne, eqb_ℤ_apart, +ℤ_comm, +ℤ_assoc, zero-+ℤ,
}
unfoldable pub use Int.{◌+ℤ◌}
unfoldable pub use Ranges.{passes_below}
pub use Ranges.{passes_below-at}
pub use Prim.Native.Nat.{ℕ, zero, suc, ◌+◌, ◌-◌, ◌*◌, ◌/◌, ◌%◌, ◌^◌, ◌≤◌, ◌<◌, min, bit_and, bit_or}
pub use mathlib.Core.Path.{◌≡◌, refl, sym, ap, ap₂, subst, ◌∙◌}
pub use mathlib.Core.Logic.{◌≢◌, ◌↔◌, ◌⊎◌, inl, inr}
pub use mathlib.Core.Bool.{Bool, true, false, not, ◌&&◌, ◌||◌}
pub use mathlib.Core.Option.{Option, none, some}
pub use mathlib.Core.List.{List, [], ◌∷◌, ◌++◌, map}
pub use native.Mathlib.Omega.{arith}
