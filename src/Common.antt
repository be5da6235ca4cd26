-- ===== src/Common.antt =====
-- What every other module shares: names of the libraries, tests, lists, integers, machine
-- words, SQL tables and the monad of a request handler.
pub mod Tests
pub mod Lists
pub mod Int
pub mod Word
pub mod Strconv
pub mod GoMap
pub mod Table
pub mod Exec
pub mod Outcome
pub mod Text
pub use Tests.*
pub use Lists.*
unfoldable pub use Tests.{String-discrete}
pub use Prim.Native.Nat.{ℕ, zero, suc, ◌+◌, ◌-◌, ◌*◌, ◌/◌, ◌%◌, ◌^◌, ◌≤◌, ◌<◌}
pub use Prim.Native.String.{String}
pub use mathlib.Core.Path.{◌≡◌, refl, sym, ap, ◌∙◌, subst}
pub use mathlib.Core.Logic.{◌≢◌, ◌↔◌, ◌⊎◌, inl, inr}
pub use mathlib.Core.Bool.{Bool, true, false, ◌&&◌, ◌||◌, not}
pub use mathlib.Core.Option.{Option, none, some}
pub use mathlib.Core.List.{List, [], ◌∷◌, ◌++◌, map}
pub use native.Mathlib.Omega.{arith}
