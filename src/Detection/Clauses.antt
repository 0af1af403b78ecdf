-- ===== src/Detection/Clauses.antt =====
-- services/detection_ast_service.py: the clauses of a detection's logic.
use Prim.Native.Char.{code, Char}
use aicti.Base.{
  ℕ, String, ◌==◌, Bool, true, false, ◌&&◌, ◌||◌, not, List, [], ◌∷◌, map, keep, contains, strip,
  split_text, starts, drop_text, text_length, ◌≡◌, refl, sym, ap, ◌∙◌, and_intro, arith,
  >>=-succeeds, is_space, leb, ◌=?◌, Result, ok, ◌>>=◌, ◌>>◌, require, is_empty,
}
use aicti.Library.{Library}

-- The messages of `ValidationGateError`; `index_error` is the index of an empty list of telemetry types.
pub data AstError : Type 0 where
  or_not_supported logic_empty logic_unsupported rules_missing index_error : AstError
  telemetry_unsupported field_unsupported : String → AstError

-- `[A-Za-z0-9_]`
unfoldable pub is_word_char : ℕ → Bool
is_word_char c =
    (leb 65 c && leb c 90) || (leb 97 c && leb c 122) || (leb 48 c && leb c 57) || c =? 95

-- Not `'`, which is the character 39.
unfoldable pub is_unquoted : ℕ → Bool
is_unquoted c = not (c =? 39)

-- The longest front of characters that pass the test, and the rest.
unfoldable pub span_char : Bool → String → String × String → String × String
span_char true (String.◌∷◌ c s) (front, rest) = (String.◌∷◌ c front, rest)
span_char _ s _ = ("", s)

unfoldable pub span : (ℕ → Bool) → String → String × String
unfolding span_char
span p String.[] = ("", "")
span p (String.◌∷◌ c s) = span_char (p (code c)) (String.◌∷◌ c s) (span p s)

-- One character at least that passes the test.
unfoldable pub some_of : (ℕ → Bool) → String → Result AstError (String × String)
unfolding span
some_of p s = do require (not ((span p s).0 == "")) logic_unsupported; ok (span p s)

-- What comes after a text that must come first.
unfoldable pub after : String → String → Result AstError String
after p s = do require (starts p s) logic_unsupported; ok (drop_text (text_length p) s)

-- What follows the name of a field.
unfoldable pub after_name : String × String → Result AstError (String × String)
unfolding some_of after is_unquoted
after_name name = do
  gap ← some_of is_space name.1
  verb ← after "contains" gap.1
  space ← some_of is_space verb
  quote ← after "'" space.1
  needle ← some_of is_unquoted quote
  require (needle.1 == "'") logic_unsupported
  ok (name.0, needle.0)

-- `_CONTAINS_PATTERN.fullmatch` and its two groups. No part can give back what the next one needs.
unfoldable pub contains_clause : String → Result AstError (String × String)
unfolding some_of is_word_char after_name
contains_clause clause = some_of is_word_char clause >>= after_name

unfoldable pub contains_clauses : List String → Result AstError (List (String × String))
unfolding contains_clause
contains_clauses [] = ok []
contains_clauses (clause ∷ clauses) = do
  pair ← contains_clause clause
  pairs ← contains_clauses clauses
  ok (pair ∷ pairs)

-- `[segment.strip() for segment in detection_logic.split(" and ") if segment.strip()]`
unfoldable pub segments : String → List String
segments detection_logic =
    keep (λ t. not (t == "")) (map strip (split_text " and " detection_logic))

unfoldable pub parse_contains_clauses : Library → String → Result AstError (List (String × String))
unfolding contains_clauses segments
parse_contains_clauses library detection_logic = do
  require (not (contains " or " (library.lower detection_logic))) or_not_supported
  require (not (is_empty (segments detection_logic))) logic_empty
  contains_clauses (segments detection_logic)

-- The name of a clause that is read is made of word characters.
abbrev pub word_chars : String → Bool
word_chars String.[] = true
word_chars (String.◌∷◌ c s) = is_word_char (code c) && word_chars s

span-word_char :
    (c : Char) (s : String) (b : Bool) (p : String × String)
    → b ≡ is_word_char (code c)
    → word_chars p.0 ≡ true
    → word_chars (span_char b (String.◌∷◌ c s) p).0 ≡ true
unfolding span_char
span-word_char c s true p e h = and_intro (sym e) h
span-word_char c s false p e h = refl

span-word_chars : (s : String) → word_chars (span is_word_char s).0 ≡ true
unfolding span
span-word_chars String.[] = refl
span-word_chars (String.◌∷◌ c s) =
    span-word_char c s (is_word_char (code c)) (span is_word_char s) refl (span-word_chars s)

some_of-word_chars :
    (s : String) (name : String × String)
    → some_of is_word_char s ≡ ok name
    → word_chars name.0 ≡ true
unfolding some_of
some_of-word_chars s name h =
    let same : span is_word_char s ≡ name = ground (arith, h) in
    ap (λ p. word_chars p.0) (sym same) ∙ span-word_chars s

after_name_kept : (name pair : String × String) → after_name name ≡ ok pair → pair.0 ≡ name.0
unfolding after_name some_of after
after_name_kept name pair h = ground (arith, h)

pub contains_clause-word_chars :
    (clause : String) (pair : String × String)
    → contains_clause clause ≡ ok pair
    → word_chars pair.0 ≡ true
unfolding contains_clause
contains_clause-word_chars clause pair h =
    let (name, found, rest) = >>=-succeeds (some_of is_word_char clause) after_name h in
    ap word_chars (after_name_kept name pair rest) ∙ some_of-word_chars clause name found
