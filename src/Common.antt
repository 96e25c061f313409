-- ===== src/Common.antt =====
-- The names that the other modules share: the libraries', passed on, and those of the children.
mod Tests
mod Lists
mod Positions
pub mod Int
mod Results
mod Perms
pub mod Assoc
pub use Tests.*
pub use Lists.*
pub use Positions.*
pub use Int.{ℤ, pos, negsuc, eqb_ℤ, ltb_ℤ, eqb_ℤ_iff, eqb_ℤ_refl, +ℤ_assoc, +ℤ_zero, zero_+ℤ, ℤ_set}
unfoldable pub use Int.{◌+ℤ◌}
pub use Results.*
pub use Perms.*
pub use Prim.Native.Nat.{ℕ, zero, suc, ◌+◌, ◌-◌, ◌*◌, ◌^◌, ◌≤◌, ◌<◌}
pub use Prim.Native.String.{String}
pub use mathlib.Core.Path.{◌≡◌, refl, sym, ap, ap₂, ◌∙◌, subst}
pub use mathlib.Core.Logic.{◌≢◌, ◌↔◌, ◌⊎◌, inl, inr}
pub use mathlib.Core.Bool.{Bool, true, false, not, ◌&&◌, ◌||◌}
pub use mathlib.Core.Option.{Option, none, some}
pub use mathlib.Core.List.{List, [], ◌∷◌, ◌++◌, append-nil, append_assoc, Perm, Mem}
unfoldable pub use mathlib.Core.List.{map, flatten}
pub use native.Mathlib.Omega.{arith}
pub use text.Mathlib.Text.{◌==◌ as str_eq}
pub use text.Mathlib.TextEquality.{eq_iff}
