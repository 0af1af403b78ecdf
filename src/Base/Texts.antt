-- ===== src/Base/Texts.antt =====
-- What the program uses of Python's `str`: `+`, `<` and `strip`.
use Prim.Native.Nat.{ℕ, Ordering}
use Prim.Native.Char.{code, Char}
use Prim.Native.String.{String, ◌++◌, compare}
use mathlib.Core.Bool.{Bool, true, false, ◌&&◌, ◌||◌}
use mathlib.Core.List.{List, [], ◌∷◌}
use aicti.Base.Tests.{leb, ◌=?◌, if◌then◌else◌}

abbrev pub concat : String → String → String
concat s t = s ++ t

-- `a < b`, by code points.
abbrev pub text_lt : String → String → Bool
text_lt a b = elim (compare a b) [ Ordering.lt ↦ true | _ ↦ false ]

-- `str.isspace` of one character.
unfoldable pub is_space : ℕ → Bool
is_space c =
    leb 9 c && leb c 13
    || (leb 28 c && leb c 32)
    || c =? 133
    || c =? 160
    || c =? 5760
    || (leb 8192 c && leb c 8202)
    || c =? 8232
    || c =? 8233
    || c =? 8239
    || c =? 8287
    || c =? 12288

unfoldable pub lstrip_char : Bool → String → String → String
lstrip_char true s rest = rest
lstrip_char false s rest = s

unfoldable pub lstrip : String → String
unfolding lstrip_char
lstrip String.[] = ""
lstrip (String.◌∷◌ c s) = lstrip_char (is_space (code c)) (String.◌∷◌ c s) (lstrip s)

unfoldable pub rstrip_char : Bool → Char → String → String
rstrip_char true c String.[] = ""
rstrip_char true c (String.◌∷◌ d rest) = String.◌∷◌ c (String.◌∷◌ d rest)
rstrip_char false c rest = String.◌∷◌ c rest

unfoldable pub rstrip : String → String
unfolding rstrip_char
rstrip String.[] = ""
rstrip (String.◌∷◌ c s) = rstrip_char (is_space (code c)) c (rstrip s)

unfoldable pub strip : String → String
unfolding lstrip rstrip
strip s = rstrip (lstrip s)

insert_text : String → List String → List String
insert_text s [] = s ∷ []
insert_text s (t ∷ ts) = let rest = insert_text s ts in if text_lt t s then t ∷ rest else s ∷ t ∷ ts

-- `sorted` of a list of texts.
unfoldable pub sorted_texts : List String → List String
unfolding insert_text
sorted_texts [] = []
sorted_texts (s ∷ ss) = insert_text s (sorted_texts ss)
