-- ===== src/Base.antt =====
-- The names that the other modules share: the libraries' and those of the children.
pub mod Test
pub mod Int
pub mod Maps
pub mod Lists
pub use Test.{ltb, leb, if◌then◌else◌, Bool-cases, Option-cases, Eq, ◌==◌, contains}
unfoldable pub use Test.{string_eq, nat_eq}
pub use Maps.{Dict, lookup-put, lookup-keep}
unfoldable pub use Maps.{lookup, put, keep}
pub use Lists.{
  length, is_empty, take, drop, take-add, drop-all, take-all, drop-add, ++-nil, ++-assoc, Memᴰ-perm,
  Memᴰ-cons, Memᴰ-map, Memᴰ-of_map, contains-Memᴰ, Memᴰ-contains,
}
pub use Int.{ℤ, pos, negsuc, pos_part, neg_part, ◌≤ℤ◌, ◌<ℤ◌, ltb_ℤ, leb_ℤ, max_ℤ, int_laws}
unfoldable pub use Int.{◌+ℤ◌, ◌-ℤ◌, ◌*ℤ◌, ℤ-discrete, int_eq}
pub use Prim.Native.Nat.{ℕ, zero, suc, ◌+◌, ◌-◌, ◌*◌, ◌/◌, ◌^◌, ◌≤◌, ◌<◌}
pub use Prim.Native.String.{String}
pub use mathlib.Core.Path.{◌≡◌, refl, sym, ap, ◌∙◌, subst}
pub use mathlib.Core.Logic.{◌≢◌, ◌↔◌, ◌⊎◌, inl, inr}
pub use mathlib.Core.Bool.{Bool, true, false, not, ◌&&◌, ◌||◌}
pub use mathlib.Core.Option.{Option, none, some}
pub use mathlib.Core.List.{List, [], ◌∷◌, ◌++◌, map, Memᴰ, Permᴰ}
pub use native.Mathlib.Omega.{arith}
unfoldable pub use native.Mathlib.Decide.{ℕ_discrete}
