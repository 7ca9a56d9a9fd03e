-- ===== src/Base.antt =====
-- The names that all modules share: those of the libraries, passed on, and the helpers of the
-- children (tests on numbers, lists measured by native numbers, byte strings, dictionaries).
mod Tests
mod Lists
mod Text
mod Dict
mod Int
pub use Tests.*
pub use Int.{ℤ, pos, negsuc}
pub use Lists.*
unfoldable pub use Text.{str_eq, str_le, split_on, intercalate}
pub use Text.{Str, prepend, str_eq_iff, str_eq_refl}
unfoldable pub use Dict.{lookup, insert, remove}
pub use Dict.{lookup-insert, lookup-remove, dict_laws}
pub use Prim.Native.Nat.{ℕ, zero, suc, ◌+◌, ◌-◌, ◌*◌, ◌/◌, ◌%◌, ◌^◌, ◌≤◌, ◌<◌, min, max}
pub use mathlib.Core.Path.{◌≡◌, refl, sym, ap, ◌∙◌}
pub use mathlib.Core.Logic.{◌≢◌, ◌↔◌, ◌⊎◌, inl, inr}
pub use mathlib.Core.Bool.{Bool, true, false, not, ◌&&◌, ◌||◌}
pub use mathlib.Core.Option.{Option, none, some}
pub use mathlib.Core.List.{List, [], ◌∷◌, ◌++◌, map}
pub use native.Mathlib.Omega.{arith}
