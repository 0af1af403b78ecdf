-- ===== src/Sigma/Matching/Tokens.antt =====
-- The condition of a compiled rule, as the dynamic validation splits it into tokens.
use text.Mathlib.TextLemmas.{append_assoc}
use Prim.Native.String.{◌++◌ as ◌+++◌}
use aicti.Base.{
  String, ◌==◌, ◌≡◌, refl, sym, ap, ◌∙◌, Bool, true, false, List, [], ◌∷◌, map, all, concat, words,
  strip, is_plain, is_word, is_word-append, is_plain_of_word, words-word, is_space, between,
  words-strip, words-join, join, err, and_true, and_intro, Bool-cases, inl, inr, eq_iff,
}
use aicti.Sigma.{not_of, FieldConditionNode, selection_name, condition_expr}
use aicti.Sigma.Matching.{unsupported_condition, by_tokens}
use aicti.Sigma.Matching.Meaning.{selection_name-is_word}

-- The text `first_part + ")"`, on the last of the joined parts.
abbrev pub close : List String → List String
close [] = []
close (t ∷ []) = concat t ")" ∷ []
close (t ∷ u ∷ ts) = t ∷ close (u ∷ ts)

join-close :
    (sep t : String) (ts : List String) → concat (join sep (t ∷ ts)) ")" ≡ join sep (close (t ∷ ts))
join-close sep t [] = refl
join-close sep t (u ∷ []) =
    append_assoc t (sep +++ u) ")" ∙ ap (λ x. t +++ x) (append_assoc sep u ")")
join-close sep t (u ∷ v ∷ ts) =
    append_assoc t (sep +++ join sep (u ∷ v ∷ ts)) ")"
    ∙ ap (λ x. t +++ x)
        (append_assoc sep (join sep (u ∷ v ∷ ts)) ")"
          ∙ ap (λ x. sep +++ x) (join-close sep u (v ∷ ts)))

join-open_first :
    (sep t : String) (ts : List String)
    → concat "(" (join sep (t ∷ ts)) ≡ join sep (concat "(" t ∷ ts)
join-open_first sep t [] = refl
join-open_first sep t (u ∷ ts) = sym (append_assoc "(" t (sep +++ join sep (u ∷ ts)))

all-close : (ts : List String) → all is_word ts ≡ true → all is_word (close ts) ≡ true
unfolding is_space
all-close [] h = refl
all-close (t ∷ []) h = and_intro (is_word-append t ")" (and_true (is_word t) true h).0 refl) refl
all-close (t ∷ u ∷ ts) h =
    let (first, rest) = and_true (is_word t) (all is_word (u ∷ ts)) h in
    and_intro first (all-close (u ∷ ts) rest)

pub all-map-selection_name :
    (cs : List FieldConditionNode)
    → all (λ (c : FieldConditionNode). is_plain c.id) cs ≡ true
    → all is_word (map selection_name cs) ≡ true
all-map-selection_name [] h = refl
all-map-selection_name (c ∷ cs) h =
    let (first, rest) =
      and_true (is_plain c.id) (all (λ (c : FieldConditionNode). is_plain c.id) cs) h in
    and_intro (selection_name-is_word c first) (all-map-selection_name cs rest)

-- A text of at least one word is not blank.
pub not_blank : (s t : String) (ts : List String) → words s ≡ t ∷ ts → (strip s == "") ≡ false
unfolding words
not_blank s t ts h = elim (Bool-cases (strip s == "")) [
  | inr e ↦ e
  | inl e ↦ no_words (sym (ap words ((eq_iff (strip s) "").0 e)) ∙ words-strip s ∙ h)
]
  where
    no_words : ◌≡◌ {A = List String} [] (t ∷ ts) → (strip s == "") ≡ false
    no_words e = cc

-- The tokens of a negated group: `not`, and an odd number of words.
pub words-not_of :
    (t : String) (ts : List String)
    → all is_word (t ∷ ts) ≡ true
    → words (condition_expr not_of (t ∷ ts)) ≡ "not" ∷ between "or" (close (concat "(" t ∷ ts))
unfolding condition_expr is_space
words-not_of t ts h =
    let (first, rest) = and_true (is_word t) (all is_word ts) h in
    let joined = join " or " (t ∷ ts) in
    let opened = concat "(" t ∷ ts in
    let are_words = and_intro (is_word-append "(" t refl (is_plain_of_word t first)) rest in
    let inner =
      sym (append_assoc "(" joined ")")
      ∙ ap (λ x. x +++ ")") (join-open_first " or " t ts)
      ∙ join-close " or " (concat "(" t) ts in
    ap words (
      append_assoc "not" " (" (joined +++ ")")
      ∙ ap (λ x. "not" +++ x) (append_assoc " " "(" (joined +++ ")")))
    ∙ words-word "not" ("(" +++ (joined +++ ")")) refl
    ∙ ap (λ x. "not" ∷ words x) inner
    ∙ ap (λ ws. "not" ∷ ws) (words-join "or" (close opened) refl (all-close opened are_words))

-- With a `not` in front, or with three words or more, the tokens are none that can be evaluated.
pub by_tokens-not :
    (condition t : String) (ts : List String) (eval_map : List (String × Bool))
    → by_tokens condition ("not" ∷ between "or" (close (t ∷ ts))) eval_map
      ≡ err (unsupported_condition condition)
unfolding by_tokens
by_tokens-not condition t [] eval_map = refl
by_tokens-not condition t (u ∷ []) eval_map = refl
by_tokens-not condition t (u ∷ v ∷ []) eval_map = refl
by_tokens-not condition t (u ∷ v ∷ w ∷ ts) eval_map = refl

pub by_tokens-many :
    (condition op t u v : String) (ts : List String) (eval_map : List (String × Bool))
    → by_tokens condition (between op (t ∷ u ∷ v ∷ ts)) eval_map
      ≡ err (unsupported_condition condition)
unfolding by_tokens
by_tokens-many condition op t u v ts eval_map = refl
