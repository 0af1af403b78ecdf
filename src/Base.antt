-- ===== src/Base.antt =====
-- The names that the other modules share: the libraries' own, and those of the children.
mod Tests
mod Lists
mod Results
mod Texts
mod Words
mod Slices
mod Cuts
mod Split
mod Ints
pub use Tests.*
pub use Lists.*
pub use Results.*
pub use Ints.*
unfoldable pub use Texts.{is_space, concat, text_lt, strip, sorted_texts}
unfoldable pub use Words.{contains, join, words, is_plain, is_word, between}
pub use Words.{
  is_plain-append, words-strip, words-join, words-word, is_word-append, is_plain_of_word,
}
unfoldable pub use Slices.{split_once, take_text, drop_text, text_length}
pub use Slices.{split_once_past, split_once-append, take-drop}
unfoldable pub use Cuts.{slice_text}
pub use Cuts.{
  drop_all, drop-drop, slice_rest, text_length-append, drop-append, take-append, length-drop,
  slice-slice,
}
unfoldable pub use Split.{starts, split_text, find_from}
pub use Split.{join-split, split_text_cons, starts-append, starts-prefix, find_from_here}
pub use Prim.Native.Nat.{ℕ, zero, suc, ◌+◌, ◌-◌, ◌*◌, ◌^◌, ◌≤◌, ◌<◌}
pub use Prim.Native.String.{String}
pub use mathlib.Core.Path.{◌≡◌, refl, sym, ap, ap₂, subst, ◌∙◌}
pub use mathlib.Core.Logic.{◌≢◌, ◌↔◌, ◌⊎◌, inl, inr}
pub use mathlib.Core.Bool.{Bool, true, false, not, ◌&&◌, ◌||◌}
pub use mathlib.Core.Option.{Option, none, some}
pub use mathlib.Core.List.{List, [], ◌∷◌, ◌++◌, map}
pub use native.Mathlib.Omega.{arith}
pub use text.Mathlib.Text.{◌==◌}
pub use text.Mathlib.TextEquality.{eq_iff}
pub use text.Mathlib.TextPositions.{eq_refl}
