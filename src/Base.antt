-- ===== src/Base.antt =====
-- What the modules share: the libraries' names passed on, tests and lists over native numbers,
-- signed integers, C strings, and the scans over the kernel's fixed tables.
mod Tests
mod Lists
mod Scan
pub mod Slices
pub mod Keyed
mod Text
mod Outcome
pub mod Int
pub mod Ring
pub use Tests.*
pub use Lists.*
pub use Scan.{
  bit, find_index-lt, find_index-holds, find_index-least, find_index-none, find_index-total,
  find_index-set, find_index-fresh, count-set, count_pos, count-le-length,
  find_index_total_of_count, get_or-set, get_or-set_self, get_or-set_ne,
}
unfoldable pub use Scan.{find_index, count}
pub use Text.{CString, codes, copy_string, text_eq_refl, text_eq_sound, length-copy_string}
unfoldable pub use Text.{text_eq}
pub use Outcome.*
pub use Prim.Native.Nat.{ℕ, zero, suc, ◌+◌, ◌-◌, ◌*◌, ◌/◌, ◌%◌, ◌^◌, ◌≤◌, ◌<◌, min}
pub use mathlib.Core.Path.{◌≡◌, refl, sym, ap, ◌∙◌}
pub use mathlib.Core.Logic.{◌≢◌, ◌↔◌, ◌⊎◌, inl, inr}
pub use mathlib.Core.Bool.{Bool, true, false, not, ◌&&◌, ◌||◌}
pub use mathlib.Core.Option.{Option, none, some}
pub use mathlib.Core.List.{List, [], ◌∷◌, ◌++◌, map, append-nil, append_assoc}
pub use native.Mathlib.Omega.{arith}
