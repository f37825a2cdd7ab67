-- ===== src/Prelude.antt =====
-- The names that the other modules share: the libraries', passed on, and those of the children.
mod Tests
mod Lists
mod Equality
mod Texts
mod Members
pub mod Int
pub mod Dict
pub use Tests.*
pub use Lists.*
pub use Equality.*
pub use Texts.*
unfoldable pub use Members.{keep, all, elem, index_of}
pub use Members.{
  Uniq, elem-append, elem-keep, keep-Uniq, Uniq-append-new, all-elem, all_of_elem, index_of-none,
  index_of-some, index_of-get_elem?, index_of-append-new, elem-index_of, keep_congr, keep_all,
  get_elem?-elem, get_elem?-index_of, index_of-lt-length, eq_of_positions, others, length-others,
  included_back, length_le_of_included, elem-drop, elem-take, drop-Uniq,
}
pub use Prim.Native.Nat.{ℕ, zero, suc, ◌+◌, ◌-◌, ◌*◌, ◌/◌, ◌%◌, ◌^◌, ◌≤◌, ◌<◌}
pub use Prim.Native.String.{String}
pub use mathlib.Core.Path.{◌≡◌, refl, sym, ap, ◌∙◌}
pub use mathlib.Core.Logic.{◌≢◌, ◌↔◌, ◌⊎◌, inl, inr}
pub use mathlib.Core.Bool.{Bool, true, false, not, ◌&&◌, ◌||◌}
pub use mathlib.Core.Option.{Option, none, some}
pub use mathlib.Core.List.{List, [], ◌∷◌, ◌++◌, map, append_assoc, append-nil}
pub use native.Mathlib.Omega.{arith}
