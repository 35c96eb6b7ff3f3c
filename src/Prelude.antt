-- ===== src/Prelude.antt =====
-- Names shared by the models of frontend/src: the libraries' names passed on, the Boolean
-- tests, the lists keyed by an identifier, and the maps (`Map` and `Record` of the source).
mod Tests
mod Lists
mod Maps
mod Text
pub use Tests.*
pub use Lists.*
pub use Maps.*
unfoldable pub use Text.{trim, utf16_length}
pub use Text.{codes, lower, begins, starts_exactly, is_lower, space_code}
pub use Prim.Native.Nat.{ℕ, zero, suc, ◌+◌, ◌-◌, ◌*◌, ◌/◌, ◌%◌, ◌≤◌, ◌<◌, min, max}
pub use Prim.Native.String.{String}
pub use text.Mathlib.Text.{◌==◌}
pub use text.Mathlib.TextEquality.{eq_iff}
pub use text.Mathlib.TextPositions.{eq_refl}
pub use mathlib.Core.Path.{◌≡◌, refl, sym, ap, subst, ◌∙◌}
pub use mathlib.Core.Logic.{◌≢◌, ◌↔◌, ◌⊎◌, inl, inr}
pub use mathlib.Core.Bool.{Bool, true, false, not, ◌&&◌, ◌||◌}
pub use mathlib.Core.Option.{Option, none, some}
pub use mathlib.Core.List.{List, [], ◌∷◌, ◌++◌, map, append_assoc, append-nil, Memᴰ}
pub use native.Mathlib.Omega.{arith}
