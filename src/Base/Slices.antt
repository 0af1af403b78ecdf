-- ===== src/Base/Slices.antt =====
-- What the program uses of Python's `str.split` at one character, and of slices of a text.
use Prim.Native.Nat.{ℕ, zero, suc}
use Prim.Native.Char.{code, Char}
use Prim.Native.String.{String, ◌++◌}
use mathlib.Core.Path.{◌≡◌, refl, ap, ap₂, ◌∙◌}
use mathlib.Core.Bool.{Bool, true, false}
use mathlib.Core.Option.{Option, none, some}
use text.Mathlib.TextLemmas.{nil-append, cons-append}
use aicti.Base.Tests.{◌=?◌}

-- What one character adds to the split of the text after it.
split_at : Bool → Char → String → Option (String × String) → Option (String × String)
split_at true c s rest = some ("", s)
split_at false c s none = none
split_at false c s (some (front, back)) = some (String.◌∷◌ c front, back)

-- `text.split(sep, 1)` for one character: the two parts, where it stands in the text.
unfoldable pub split_once : ℕ → String → Option (String × String)
unfolding split_at
split_once sep String.[] = none
split_once sep (String.◌∷◌ c s) = split_at (code c =? sep) c s (split_once sep s)

no_split :
    (b : Bool) (c : Char) (s : String) (rest : Option (String × String))
    → split_at b c s rest ≡ none
    → (b ≡ false) × (rest ≡ none)
unfolding split_at
no_split true c s rest h = cc
no_split false c s none h = (refl, refl)
no_split false c s (some (front, back)) h = cc

pub split_once-append :
    (sep : ℕ) (front back : String) (c : Char)
    → split_once sep front ≡ none
    → (code c =? sep) ≡ true
    → split_once sep (front ++ String.◌∷◌ c back) ≡ some (front, back)
unfolding split_once split_at
split_once-append sep String.[] back c h e =
    ap (split_once sep) (nil-append (String.◌∷◌ c back))
    ∙ ap (λ b. split_at b c back (split_once sep back)) e
split_once-append sep (String.◌∷◌ d front) back c h e =
    let (other, none_left) = no_split (code d =? sep) d front (split_once sep front) h in
    ap (split_once sep) (cons-append d front (String.◌∷◌ c back))
    ∙ ap
        (λ b.
          split_at b d (front ++ String.◌∷◌ c back) (split_once sep (front ++ String.◌∷◌ c back)))
        other
    ∙ ap (split_at false d (front ++ String.◌∷◌ c back))
        (split_once-append sep front back c none_left e)

-- A character that is not the separator.
pub split_once_past :
    (sep : ℕ) (c : Char) (s : String)
    → (code c =? sep) ≡ false
    → split_once sep s ≡ none
    → split_once sep (String.◌∷◌ c s) ≡ none
unfolding split_once split_at
split_once_past sep c s other rest = ap₂ (λ b r. split_at b c s r) other rest

-- `text[:n]` and `text[n:]`
unfoldable pub take_text : ℕ → String → String
take_text zero s = ""
take_text (suc n) String.[] = ""
take_text (suc n) (String.◌∷◌ c s) = String.◌∷◌ c (take_text n s)

unfoldable pub drop_text : ℕ → String → String
drop_text zero s = s
drop_text (suc n) String.[] = ""
drop_text (suc n) (String.◌∷◌ c s) = drop_text n s

-- `len(text)`
unfoldable pub text_length : String → ℕ
text_length String.[] = 0
text_length (String.◌∷◌ c s) = suc (text_length s)

pub take-drop : (n : ℕ) (s : String) → take_text n s ++ drop_text n s ≡ s
unfolding take_text drop_text
take-drop zero s = nil-append s
take-drop (suc n) String.[] = nil-append ""
take-drop (suc n) (String.◌∷◌ c s) =
    cons-append c (take_text n s) (drop_text n s) ∙ ap (λ t. String.◌∷◌ c t) (take-drop n s)
