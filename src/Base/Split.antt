-- ===== src/Base/Split.antt =====
-- What the program uses of Python's `str.split` at a text, `str.find` and the slices of slices.
use Prim.Native.Nat.{ℕ, zero, suc, ◌+◌, ◌-◌, ◌≤◌}
use Prim.Native.Char.{code, Char}
use Prim.Native.String.{String, ◌++◌}
use mathlib.Core.Path.{◌≡◌, refl, sym, ap, ◌∙◌}
use mathlib.Core.Logic.{inl, inr}
use mathlib.Core.Bool.{Bool, true, false, ◌&&◌}
use mathlib.Core.Option.{Option, none, some}
use mathlib.Core.List.{List, [], ◌∷◌}
use native.Mathlib.Omega.{arith}
use text.Mathlib.TextEquality.{Char-path}
use text.Mathlib.TextLemmas.{nil-append, cons-append}
use aicti.Base.Tests.{Bool-cases, ◌=?◌, =?_iff, and_true, if◌then◌else◌, leb}
use aicti.Base.Words.{join}
use aicti.Base.Slices.{drop_text, text_length}

-- `s.startswith(p)`
unfoldable pub starts : String → String → Bool
starts String.[] s = true
starts (String.◌∷◌ c p) String.[] = false
starts (String.◌∷◌ c p) (String.◌∷◌ d s) = code c =? code d && starts p s

pub starts-append : (p s : String) → starts p s ≡ true → p ++ drop_text (text_length p) s ≡ s
unfolding starts drop_text text_length
starts-append String.[] s h = nil-append s
starts-append (String.◌∷◌ c p) String.[] h = cc
starts-append (String.◌∷◌ c p) (String.◌∷◌ d s) h =
    let (same, rest) = and_true (code c =? code d) (starts p s) h in
    cons-append c p (drop_text (text_length p) s)
    ∙ ap (λ t. String.◌∷◌ c t) (starts-append p s rest)
    ∙ ap (λ e. String.◌∷◌ e s) (Char-path c d ((=?_iff (code c) (code d)).0 same))

pub starts-prefix : (p s : String) → starts p (p ++ s) ≡ true
unfolding starts
starts-prefix String.[] s = refl
starts-prefix (String.◌∷◌ c p) s =
    ap (starts (String.◌∷◌ c p)) (cons-append c p s) ∙ ground (arith, starts-prefix p s)

-- What one character adds to the parts after it: an empty part before the parts after the separator, where
-- that begins here, and else the character in front of the first part.
unfoldable pub split_here : Bool → Char → List String → List String → List String
split_here true c after plain = "" ∷ after
split_here false c after [] = String.◌∷◌ c "" ∷ []
split_here false c after (part ∷ parts) = String.◌∷◌ c part ∷ parts

-- The parts of a text from the given number of characters on.
unfoldable pub split_from : String → ℕ → String → List String
unfolding split_here
split_from sep skip String.[] = "" ∷ []
split_from sep (suc skip) (String.◌∷◌ c s) = split_from sep skip s
split_from sep zero (String.◌∷◌ c s) =
    split_here (starts sep (String.◌∷◌ c s)) c (split_from sep (text_length sep - 1) s)
      (split_from sep 0 s)

-- `s.split(sep)`, for a separator that is not empty.
unfoldable pub split_text : String → String → List String
unfolding split_from
split_text sep s = split_from sep 0 s

split_here_cons :
    (b : Bool) (c : Char) (after plain : List String)
    → (w : String) × (ws : List String) × (split_here b c after plain ≡ w ∷ ws)
unfolding split_here
split_here_cons true c after plain = ("", after, refl)
split_here_cons false c after [] = (_, [], refl)
split_here_cons false c after (part ∷ parts) = (_, parts, refl)

split_from_cons :
    (sep : String) (skip : ℕ) (s : String)
    → (w : String) × (ws : List String) × (split_from sep skip s ≡ w ∷ ws)
unfolding split_from
split_from_cons sep skip String.[] = ("", [], refl)
split_from_cons sep (suc skip) (String.◌∷◌ c s) = split_from_cons sep skip s
split_from_cons sep zero (String.◌∷◌ c s) = split_here_cons (starts sep (String.◌∷◌ c s)) c _ _

join_plain :
    (sep : String) (c : Char) (after plain : List String)
    → join sep (split_here false c after plain) ≡ String.◌∷◌ c (join sep plain)
unfolding split_here
join_plain sep c after [] = refl
join_plain sep c after (part ∷ []) = refl
join_plain sep c after (part ∷ next ∷ parts) = cons-append c part (sep ++ join sep (next ∷ parts))

join_blank : (sep w : String) (ws : List String) → join sep ("" ∷ w ∷ ws) ≡ sep ++ join sep (w ∷ ws)
join_blank sep w ws = nil-append (sep ++ join sep (w ∷ ws))

-- The parts, joined again, are the text.
join-split_from :
    (c₀ : Char) (sep : String) (skip : ℕ) (s : String)
    → join (String.◌∷◌ c₀ sep) (split_from (String.◌∷◌ c₀ sep) skip s) ≡ drop_text skip s
unfolding split_from drop_text split_here text_length
join-split_from c₀ sep zero String.[] = refl
join-split_from c₀ sep (suc skip) String.[] = refl
join-split_from c₀ sep (suc skip) (String.◌∷◌ c s) = join-split_from c₀ sep skip s
join-split_from c₀ sep zero (String.◌∷◌ c s) =
    let whole = String.◌∷◌ c₀ sep in
    elim (Bool-cases (starts whole (String.◌∷◌ c s))) [
      | inr e ↦
          ap
            (λ b.
              join whole (
                split_here b c (split_from whole (text_length whole - 1) s) (split_from whole 0 s)))
            e
          ∙ join_plain whole c (split_from whole (text_length whole - 1) s) (split_from whole 0 s)
          ∙ ap (λ t. String.◌∷◌ c t) (join-split_from c₀ sep zero s)
      | inl e ↦
          let (w, ws, cons) = split_from_cons whole (text_length sep) s in
          let one_less : text_length whole - 1 ≡ text_length sep = omega arith in
          ap
            (λ b.
              join whole (
                split_here b c (split_from whole (text_length whole - 1) s) (split_from whole 0 s)))
            e
          ∙ ap (λ n. join whole ("" ∷ split_from whole n s)) one_less
          ∙ ap (λ l. join whole ("" ∷ l)) cons
          ∙ join_blank whole w ws
          ∙ ap (λ l. whole ++ join whole l) (sym cons)
          ∙ ap (λ t. whole ++ t) (join-split_from c₀ sep (text_length sep) s)
          ∙ starts-append whole (String.◌∷◌ c s) e
    ]

pub join-split :
    (c₀ : Char) (sep s : String) → join (String.◌∷◌ c₀ sep) (split_text (String.◌∷◌ c₀ sep) s) ≡ s
unfolding split_text drop_text
join-split c₀ sep s = join-split_from c₀ sep zero s

later : Option ℕ → Option ℕ
later none = none
later (some n) = some (suc n)

-- Where the text first has `needle`.
unfoldable pub find_text : String → String → Option ℕ
unfolding later
find_text needle String.[] = if starts needle "" then some 0 else none
find_text needle (String.◌∷◌ c s) =
    let rest = later (find_text needle s) in if starts needle (String.◌∷◌ c s) then some 0 else rest

shifted : ℕ → Option ℕ → Option ℕ
shifted start none = none
shifted start (some n) = some (start + n)

-- `s.find(needle, start)`, which is `none` where it is -1.
unfoldable pub find_from : String → String → ℕ → Option ℕ
unfolding find_text shifted
find_from needle s start =
    if leb start (text_length s) then shifted start (find_text needle (drop_text start s)) else none

find_first : (needle s : String) → starts needle s ≡ true → find_text needle s ≡ some 0
unfolding find_text
find_first needle String.[] h = rw h refl
find_first needle (String.◌∷◌ c s) h = rw h refl

-- What stands at the start is found there.
pub find_from_here :
    (needle s : String) (start : ℕ)
    → start ≤ text_length s
    → starts needle (drop_text start s) ≡ true
    → find_from needle s start ≡ some start
unfolding find_from shifted
find_from_here needle s start h k =
    let inside : leb start (text_length s) ≡ true = ground (arith, h) in
    rw inside (ap (shifted start) (find_first needle (drop_text start s) k) ∙ ap some (omega arith))

pub split_text_cons :
    (sep s : String) → (w : String) × (ws : List String) × (split_text sep s ≡ w ∷ ws)
unfolding split_text
split_text_cons sep s = split_from_cons sep 0 s
