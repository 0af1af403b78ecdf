-- ===== src/Base/Words.antt =====
-- What the program uses of Python's `str.split`, `str.join`, `in` and slices.
use Prim.Native.Char.{code, Char}
use Prim.Native.String.{String, ◌++◌}
use mathlib.Core.Path.{◌≡◌, refl, sym, ap, ap₂, ◌∙◌}
use mathlib.Core.Bool.{Bool, true, false, ◌&&◌, not}
use mathlib.Core.Option.{none, some}
use mathlib.Core.List.{List, [], ◌∷◌}
use text.Mathlib.Text.{find?}
use text.Mathlib.TextLemmas.{nil-append, cons-append, append_assoc}
use aicti.Base.Lists.{all}
use aicti.Base.Tests.{and_true, and_intro}
use aicti.Base.Texts.{is_space, lstrip, rstrip, strip, lstrip_char, rstrip_char}

-- `needle in text`
abbrev pub contains : String → String → Bool
contains needle text = elim (find? text needle) [ none ↦ false | some k ↦ true ]

-- `sep.join(parts)`
abbrev pub join : String → List String → String
join sep [] = ""
join sep (part ∷ []) = part
join sep (part ∷ next ∷ parts) = part ++ (sep ++ join sep (next ∷ parts))

-- A word that ends where the rest of the text begins, and the words after it.
abbrev push : String → List String → List String
push String.[] ws = ws
push (String.◌∷◌ c w) ws = String.◌∷◌ c w ∷ ws

split_char : Bool → Char → String × List String → String × List String
split_char true c (w, ws) = ("", push w ws)
split_char false c (w, ws) = (String.◌∷◌ c w, ws)

split_from : String → String × List String
unfolding split_char
split_from String.[] = ("", [])
split_from (String.◌∷◌ c s) = split_char (is_space (code c)) c (split_from s)

-- `text.split()`
unfoldable pub words : String → List String
unfolding split_from
words s = let (w, ws) = split_from s in push w ws

-- A text without white space.
abbrev pub is_plain : String → Bool
is_plain String.[] = true
is_plain (String.◌∷◌ c s) = not (is_space (code c)) && is_plain s

split_from-rstrip_char :
    (c : Char) (b : Bool) (rest : String)
    → is_space (code c) ≡ b
    → split_from (rstrip_char b c rest) ≡ split_char b c (split_from rest)
unfolding split_from split_char rstrip_char
split_from-rstrip_char c true String.[] e = refl
split_from-rstrip_char c true (String.◌∷◌ d rest) e =
    ap (λ b. split_char b c (split_from (String.◌∷◌ d rest))) e
split_from-rstrip_char c false rest e = ap (λ b. split_char b c (split_from rest)) e

split_from-rstrip : (s : String) → split_from (rstrip s) ≡ split_from s
unfolding split_from rstrip
split_from-rstrip String.[] = refl
split_from-rstrip (String.◌∷◌ c s) =
    split_from-rstrip_char c (is_space (code c)) (rstrip s) refl
    ∙ ap (split_char (is_space (code c)) c) (split_from-rstrip s)

words-lstrip_char :
    (c : Char) (b : Bool) (s rest : String)
    → is_space (code c) ≡ b
    → words rest ≡ words s
    → words (lstrip_char b (String.◌∷◌ c s) rest) ≡ words (String.◌∷◌ c s)
unfolding words split_from split_char lstrip_char
words-lstrip_char c true s rest e h =
    h ∙ ap (λ b. let (w, ws) = split_char b c (split_from s) in push w ws) (sym e)
words-lstrip_char c false s rest e h = refl

words-lstrip : (s : String) → words (lstrip s) ≡ words s
unfolding lstrip
words-lstrip String.[] = refl
words-lstrip (String.◌∷◌ c s) =
    words-lstrip_char c (is_space (code c)) s (lstrip s) refl (words-lstrip s)

pub words-strip : (s : String) → words (strip s) ≡ words s
unfolding words strip
words-strip s = ap (λ p. push p.0 p.1) (split_from-rstrip (lstrip s)) ∙ words-lstrip s

split_from-space : (s : String) → split_from (" " ++ s) ≡ ("", words s)
unfolding split_from words split_char is_space
split_from-space s = ap split_from (cons-append _ "" s) ∙ ap (λ x. ("", words x)) (nil-append s)

split_char-plain :
    (c : Char) (t : String) (ws : List String) (p : String × List String)
    → is_plain (String.◌∷◌ c t) ≡ true
    → (is_plain t ≡ true → p ≡ (t, ws))
    → split_char (is_space (code c)) c p ≡ (String.◌∷◌ c t, ws)
unfolding split_char
split_char-plain c t ws p h k =
    let (first, rest) = and_true (not (is_space (code c))) (is_plain t) h in
    ap₂ (λ b q. split_char b c q) (not-eq-true (is_space (code c)) first) (k rest)
  where
    not-eq-true : (b : Bool) → not b ≡ true → b ≡ false
    not-eq-true true e = cc
    not-eq-true false e = refl

split_from-plain : (t s : String) → is_plain t ≡ true → split_from (t ++ (" " ++ s)) ≡ (t, words s)
unfolding split_from
split_from-plain String.[] s h = ap split_from (nil-append (" " ++ s)) ∙ split_from-space s
split_from-plain (String.◌∷◌ c t) s h =
    ap split_from (cons-append c t (" " ++ s))
    ∙ split_char-plain c t (words s) _ h (split_from-plain t s)

split_from-end : (t : String) → is_plain t ≡ true → split_from t ≡ (t, [])
unfolding split_from
split_from-end String.[] h = refl
split_from-end (String.◌∷◌ c t) h = split_char-plain c t [] _ h (split_from-end t)

pub is_plain-append :
    (s t : String) → is_plain s ≡ true → is_plain t ≡ true → is_plain (s ++ t) ≡ true
is_plain-append String.[] t h k = ap is_plain (nil-append t) ∙ k
is_plain-append (String.◌∷◌ c s) t h k =
    let (first, rest) = and_true (not (is_space (code c))) (is_plain s) h in
    ap is_plain (cons-append c s t) ∙ and_intro first (is_plain-append s t rest k)

-- A text that is one word.
abbrev pub is_word : String → Bool
is_word String.[] = false
is_word (String.◌∷◌ c s) = is_plain (String.◌∷◌ c s)

pub is_word-append : (s t : String) → is_word s ≡ true → is_plain t ≡ true → is_word (s ++ t) ≡ true
is_word-append String.[] t h k = cc
is_word-append (String.◌∷◌ c s) t h k =
    ap is_word (cons-append c s t)
    ∙ sym (ap is_plain (cons-append c s t))
    ∙ is_plain-append (String.◌∷◌ c s) t h k

pub is_plain_of_word : (t : String) → is_word t ≡ true → is_plain t ≡ true
is_plain_of_word String.[] h = refl
is_plain_of_word (String.◌∷◌ c s) h = h

pub words-word : (t s : String) → is_word t ≡ true → words (t ++ (" " ++ s)) ≡ t ∷ words s
unfolding words
words-word String.[] s h = cc
words-word (String.◌∷◌ c t) s h = ap (λ p. push p.0 p.1) (split_from-plain (String.◌∷◌ c t) s h)

words_one : (t : String) → is_word t ≡ true → words t ≡ t ∷ []
unfolding words
words_one String.[] h = cc
words_one (String.◌∷◌ c t) h = ap (λ p. push p.0 p.1) (split_from-end (String.◌∷◌ c t) h)

-- The words with `op` between them.
abbrev pub between : String → List String → List String
between op [] = []
between op (t ∷ []) = t ∷ []
between op (t ∷ u ∷ ts) = t ∷ op ∷ between op (u ∷ ts)

-- Words joined by a spaced word are split as they were joined.
pub words-join :
    (op : String) (ts : List String)
    → is_word op ≡ true
    → all is_word ts ≡ true
    → words (join (" " ++ (op ++ " ")) ts) ≡ between op ts
unfolding words
words-join op [] h k = refl
words-join op (t ∷ []) h k = words_one t (and_true _ _ k).0
words-join op (t ∷ u ∷ ts) h k =
    let rest = join (" " ++ (op ++ " ")) (u ∷ ts) in
    let spaced =
      append_assoc " " (op ++ " ") rest ∙ ap (λ x. " " ++ x) (append_assoc op " " rest) in
    ap (λ x. words (t ++ x)) spaced
    ∙ words-word t _ (and_true _ _ k).0
    ∙ ap (λ ws. t ∷ ws)
        (words-word op rest h ∙ ap (λ ws. op ∷ ws) (words-join op (u ∷ ts) h (and_true _ _ k).1))
