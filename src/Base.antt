-- ===== src/Base.antt =====
-- What every part of the model shares: the libraries' names, passed on, Boolean tests and lists over
-- the native numbers, byte strings, association lists for Go's maps, and results with an error.
mod Tests
mod Lists
mod Text
mod Assoc
mod Errors
mod Int
mod Floats
mod Hex
mod Digits
mod Sets
mod Orders
mod Sorts
pub use Tests.*
pub use Lists.*
pub use Text.*
pub use Assoc.*
pub use Errors.*
pub use Int.*
pub use Floats.{Float}
unfoldable pub use Hex.*
unfoldable pub use Digits.*
pub use Sets.*
pub use Orders.*
pub use Sorts.*
pub use Prim.Native.Nat.{ℕ, zero, suc, ◌+◌, ◌-◌, ◌*◌, ◌/◌, ◌%◌, ◌^◌, ◌≤◌, ◌<◌, min, max}
pub use Prim.Native.String.{String}
pub use mathlib.Core.Path.{◌≡◌, refl, sym, ap, ◌∙◌, subst}
pub use mathlib.Core.Logic.{◌≢◌, ◌↔◌, ◌⊎◌, inl, inr}
pub use mathlib.Core.Bool.{Bool, true, false, ◌&&◌, ◌||◌, not}
pub use mathlib.Core.Option.{Option, none, some}
pub use mathlib.Core.List.{List, [], ◌∷◌, ◌++◌, map, Permᴰ}
pub use native.Mathlib.Omega.{arith}
