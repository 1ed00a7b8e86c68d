-- ===== src/Base.antt =====
-- The names that the other modules share: the libraries', passed on, and those of the children.
mod Tests
mod Lists
mod Text
mod Maps
mod Sorting
pub use Tests.*
pub use Lists.{
  length, get_elem?, get_or, set, take, drop, All, length-append, length-take, length-drop,
  length-set, get_elem?-set_self, get_elem?-set_ne, lt_of_get_elem?, get_elem?-none,
  take-append-drop, take-append, drop-append, Bytes, IsBytes, bytes_eq_iff, little_endian,
  length-le_bytes, little_endian-le_bytes,
}
unfoldable pub use Lists.{bytes_eq, has_prefix, le_bytes}
pub use Maps.{map_get-map_delete, map_get-map_set}
unfoldable pub use Maps.{map_get, map_delete, map_set, or_default}
unfoldable pub use Sorting.{text_before, insert_sorted, sort_by}
unfoldable pub use Text.{
  str, decimal, decimal_fuel, pad_zero, hex_byte, hex_string, space_width, trim_left_from,
  all_space, trim_right, trim_space, fields_from, fields, join, to_upper,
}
pub use Text.{decimal_value, decimal_value-decimal, length-hex_string, length-trim_space}
pub use Prim.Native.Nat.{ℕ, zero, suc, ◌+◌, ◌-◌, ◌*◌, ◌/◌, ◌%◌, ◌^◌, ◌≤◌, ◌<◌, min, bit_and, bit_or}
pub use Prim.Native.String.{String}
pub use mathlib.Core.Path.{◌≡◌, refl, sym, ap, ◌∙◌}
pub use mathlib.Core.Logic.{◌≢◌, ◌↔◌, ◌⊎◌, inl, inr}
pub use mathlib.Core.Bool.{Bool, true, false, not, ◌&&◌, ◌||◌}
pub use mathlib.Core.Option.{Option, none, some}
pub use mathlib.Core.List.{
  List, [], ◌∷◌, ◌++◌, map, append_assoc, append-nil, reverse, reverse-reverse,
}
pub use native.Mathlib.Omega.{arith}
