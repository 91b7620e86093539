-- ===== src/Prelude.antt =====
-- The names that the components share: those of the libraries, passed on, and those of the
-- children. `Prelude.Tests` branches on numbers, `Prelude.Lists` measures lists by native numbers,
-- `Prelude.Words` wraps DWORD and uint64 counters, `Prelude.Dict` is the maps of the source,
-- `Prelude.Count` counts how often a number is listed,
-- `Prelude.Slices` cuts lists, `Prelude.Texts` turns bytes into texts.
mod Tests
mod Lists
mod Words
mod Dict
mod Count
mod Slices
mod Texts
pub use Tests.*
pub use Lists.*
pub use Words.*
unfoldable pub use Dict.*
unfoldable pub use Count.*
pub use Slices.*
unfoldable pub use Texts.*
pub use Prim.Native.Nat.{ℕ, zero, suc, ◌+◌, ◌-◌, ◌*◌, ◌/◌, ◌%◌, ◌^◌, ◌≤◌, ◌<◌}
pub use mathlib.Core.Path.{◌≡◌, refl, sym, ap, ◌∙◌, subst}
pub use mathlib.Core.Logic.{◌≢◌, ◌↔◌, ◌⊎◌, inl, inr}
pub use mathlib.Core.Bool.{Bool, true, false, not, ◌&&◌, ◌||◌}
pub use mathlib.Core.Option.{Option, none, some}
pub use mathlib.Core.List.{List, [], ◌∷◌, ◌++◌, map, map-append, append-nil, append_assoc}
pub use native.Mathlib.Omega.{arith}
