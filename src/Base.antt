-- ===== src/Base.antt =====
-- Names that the other modules share: the libraries' and those of the children.
mod Tests
mod Lists
mod Outcome
mod Strings
mod Sort
mod Maps
mod SortLaws
mod Distinct
mod MapLaws
mod Guards
mod Bodies
pub mod Search
pub mod Worklist
unfoldable pub use Tests.*
unfoldable pub use Lists.*
unfoldable pub use Outcome.*
unfoldable pub use Strings.*
unfoldable pub use Sort.*
pub use SortLaws.*
pub use Guards.*
unfoldable pub use Bodies.*
pub use MapLaws.*
unfoldable pub use Distinct.*
unfoldable pub use Maps.*
unfoldable pub use Search.*
unfoldable pub use Worklist.*
pub use Prim.Native.Nat.{ℕ, zero, suc, ◌+◌, ◌-◌, ◌*◌, ◌/◌, ◌%◌, ◌^◌, ◌≤◌, ◌<◌}
pub use Prim.Native.String.{String}
pub use mathlib.Core.Path.{◌≡◌, refl, sym, ap, ◌∙◌, subst}
pub use mathlib.Core.Logic.{◌≢◌, ◌↔◌, ◌⊎◌, inl, inr}
pub use mathlib.Core.Bool.{Bool, true, false, not, ◌&&◌, ◌||◌}
pub use mathlib.Core.Option.{Option, none, some}
pub use mathlib.Core.List.{List, [], ◌∷◌, ◌++◌, map}
pub use native.Mathlib.Omega.{arith}
