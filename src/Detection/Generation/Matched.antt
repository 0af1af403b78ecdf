-- ===== src/Detection/Generation/Matched.antt =====
-- The compiled rule of a specification against the clauses of its logic.
use Prim.Native.Char.{code}
use aicti.Base.{
  ℕ, zero, suc, String, concat, ◌≡◌, refl, sym, ap, ap₂, subst, ◌∙◌, Bool, true, false, ◌&&◌, ◌||◌,
  none, List, [], ◌∷◌, map, all, contains, is_empty, ok, err, ok-injective, >>=-succeeds, arith,
  and_true, and_intro, is_plain, is_plain-append, is_space, take_text, split_once, split_once_past,
  if◌then◌else◌, Result-cases, inl, inr, ◌=?◌, not,
}
use aicti.Value.{Value, Fields, end, field}
use aicti.Library.{Library}
use aicti.Hashing.{snapshot_hash, canonicalize_payload}
use aicti.Sigma.{DetectionAst, FieldConditionNode, all_of, compile, condition_expr, selection_name}
use aicti.Sigma.Matching.{rule_matches, observed, unsupported_condition}
use aicti.Sigma.Matching.Meaning.{holds, is_readable, is_whole}
use aicti.Sigma.Matching.Compiled.{distinct_ids, are_sound, is_compilable, rule_matches-compile}
use aicti.Detection.{SpecPayload, BehaviorRule}
use aicti.Detection.Clauses.{
  contains_clause, contains_clauses, parse_contains_clauses, segments, word_chars, is_word_char,
  contains_clause-word_chars,
}
use aicti.Detection.Ast.{
  from_spec, from_rules, from_telemetry, from_clauses, first_telemetry, ast_of, condition_node,
  node_id,
}

not_bar : (n : ℕ) → is_word_char n ≡ true → (n =? 124) ≡ false
unfolding is_word_char
not_bar n h = ground (arith, h)

no_bar : (s : String) → word_chars s ≡ true → split_once 124 s ≡ none
unfolding split_once
no_bar String.[] h = refl
no_bar (String.◌∷◌ c s) h =
    let (here, rest) = and_true (is_word_char (code c)) (word_chars s) h in
    split_once_past 124 c s (not_bar (code c) here) (no_bar s rest)

is_plain-take_text : (n : ℕ) (s : String) → is_plain s ≡ true → is_plain (take_text n s) ≡ true
unfolding take_text
is_plain-take_text zero s h = refl
is_plain-take_text (suc n) String.[] h = refl
is_plain-take_text (suc n) (String.◌∷◌ c s) h =
    let (here, rest) = and_true (not (is_space (code c))) (is_plain s) h in
    and_intro here (is_plain-take_text n s rest)

-- One clause or two.
abbrev pub is_few : List (String × String) → Bool
is_few (p ∷ []) = true
is_few (p ∷ q ∷ []) = true
is_few _ = false

all-word_chars :
    (clauses : List String) (pairs : List (String × String))
    → contains_clauses clauses ≡ ok pairs
    → all (λ p. word_chars p.0) pairs ≡ true
unfolding contains_clauses
all-word_chars [] pairs h = ap (all (λ p. word_chars p.0)) (sym (ok-injective h))
all-word_chars (clause ∷ clauses) pairs h = elim (Result-cases (contains_clause clause)) [
  | inl (pair, e) ↦ elim (Result-cases (contains_clauses clauses)) [
    | inl (rest, f) ↦
        let same : pair ∷ rest ≡ pairs = ground (arith, h, e, f) in
        ap (all (λ p. word_chars p.0)) (sym same)
        ∙ and_intro (contains_clause-word_chars clause pair e) (all-word_chars clauses rest f)
    | inr (x, f) ↦ ground (arith, h, e, f)
  ]
  | inr (x, e) ↦ ground (arith, h, e)
]

or_none : (b : Bool) → (b || false) ≡ b
or_none true = refl
or_none false = refl

module _ (library : Library) (hex : (s : String) → is_plain (library.sha256 s) ≡ true)
    (evidence_ids : List String) where
  plain_id :
      (payload : Value)
      → is_plain (concat "cond_" (take_text 10 (snapshot_hash library payload))) ≡ true
  unfolding snapshot_hash is_space
  plain_id payload =
      let hash = snapshot_hash library payload in
      is_plain-append "cond_" (take_text 10 hash) refl
        (is_plain-take_text 10 hash (hex (canonicalize_payload library payload)))

  sound_nodes :
      (pairs : List (String × String))
      → all (λ p. word_chars p.0) pairs ≡ true
      → are_sound (map (condition_node library evidence_ids) pairs) ≡ true
  unfolding condition_node node_id
  sound_nodes [] h = refl
  sound_nodes ((name, needle) ∷ pairs) h =
      let (word, rest) = and_true (word_chars name) _ h in
      and_intro
        (and_intro
          (plain_id
            (Value.dict (field "field" (Value.text name) (field "needle" (Value.text needle) end))))
          (ap is_whole (no_bar name word)))
        (sound_nodes pairs rest)

  readable_nodes :
      (id : String) (pairs : List (String × String))
      → is_readable (record {
        id = id;
        operator = all_of;
        children = map (condition_node library evidence_ids) pairs;
      })
        ≡ is_few pairs
  readable_nodes id [] = refl
  readable_nodes id (p ∷ []) = refl
  readable_nodes id (p ∷ q ∷ []) = refl
  readable_nodes id (p ∷ q ∷ r ∷ rs) = refl

  all_nodes :
      (event : Fields) (pairs : List (String × String))
      → all (holds library event) (map (condition_node library evidence_ids) pairs)
        ≡ all (λ p. contains p.1 (observed library p.0 event)) pairs
  unfolding condition_node
  all_nodes event [] = refl
  all_nodes event ((name, needle) ∷ pairs) =
      ap₂ (λ a b. a && b) (or_none (contains needle (observed library name event)))
        (all_nodes event pairs)

some_clause :
    (clauses : List String) (pairs : List (String × String))
    → contains_clauses clauses ≡ ok pairs
    → is_empty clauses ≡ false
    → is_empty pairs ≡ false
unfolding contains_clauses
some_clause [] pairs h filled = cc
some_clause (clause ∷ clauses) [] h filled = ground (arith, h)
some_clause (clause ∷ clauses) (p ∷ ps) h filled = refl

parsed_parts :
    (library : Library) (logic : String) (pairs : List (String × String))
    → parse_contains_clauses library logic ≡ ok pairs
    → (all (λ p. word_chars p.0) pairs ≡ true) × (is_empty pairs ≡ false)
unfolding parse_contains_clauses
parsed_parts library logic pairs h =
    let read : contains_clauses (segments logic) ≡ ok pairs = ground (arith, h) in
    let filled : is_empty (segments logic) ≡ false = ground (arith, h) in
    (all-word_chars (segments logic) pairs read, some_clause (segments logic) pairs read filled)

compilable_nodes :
    (cs : List FieldConditionNode)
    → is_empty cs ≡ false
    → are_sound cs ≡ true
    → distinct_ids cs ≡ true
    → is_compilable cs ≡ true
compilable_nodes [] h k l = cc
compilable_nodes (c ∷ cs) h k l = and_intro k l

is_empty-map : {A B : Type 0} (f : A → B) (xs : List A) → is_empty (map f xs) ≡ is_empty xs
is_empty-map f [] = refl
is_empty-map f (x ∷ xs) = refl

-- What a logic was read from.
abbrev pub Read : Library → SpecPayload → List BehaviorRule → DetectionAst → Type 0
Read library spec listed ast =
    (rule : BehaviorRule) × (rules : List BehaviorRule) × (source : String) × (pairs : List
      (String × String))
    × (listed ≡ rule ∷ rules)
    × (parse_contains_clauses library rule.detection_logic ≡ ok pairs)
    × (ast ≡ ast_of library spec rule source pairs)

from_rules-Read :
    (library : Library) (spec : SpecPayload) (listed : List BehaviorRule) (ast : DetectionAst)
    → from_rules library spec listed ≡ ok ast
    → Read library spec listed ast
unfolding from_rules from_telemetry from_clauses
from_rules-Read library spec [] ast h = cc
from_rules-Read library spec (rule ∷ rules) ast h =
    let (source, found, h1) =
      >>=-succeeds (first_telemetry rule.required_telemetry) (from_telemetry library spec rule) h in
    let (pairs, parsed, h2) =
      >>=-succeeds (parse_contains_clauses library rule.detection_logic)
        (from_clauses library spec rule source) h1 in
    let same : ast ≡ ast_of library spec rule source pairs = ground (arith, h2) in
    (rule, rules, source, pairs, refl, parsed, same)

pub from_spec-Read :
    (library : Library) (spec : SpecPayload) (ast : DetectionAst)
    → from_spec library spec ≡ ok ast
    → Read library spec spec.behavior_rules ast
unfolding from_spec
from_spec-Read library spec ast h = from_rules-Read library spec spec.behavior_rules ast h

-- What the clauses ask of an event.
abbrev pub asked : Library → Fields → List (String × String) → Bool
asked library event = all (λ p. contains p.1 (observed library p.0 event))

module _ (library : Library) (hex : (s : String) → is_plain (library.sha256 s) ≡ true)
    (str_text : (s : String) → library.str (Value.text s) ≡ s) where
  matched_clauses :
      (spec : SpecPayload) (rule : BehaviorRule) (source : String) (pairs : List (String × String))
      → parse_contains_clauses library rule.detection_logic ≡ ok pairs
      → distinct_ids (ast_of library spec rule source pairs).root.children ≡ true
      → (title description : String) (falsepositives : List String) (level : String)
        (event : Fields)
      → rule_matches library
          (compile library
            (ast_of library spec rule source pairs)
            title
            description
            falsepositives
            level).detection
          event
        ≡ (if is_few pairs
            then ok (asked library event pairs)
            else err (
                unsupported_condition (
                  condition_expr all_of
                    (map selection_name (ast_of library spec rule source pairs).root.children))))
  unfolding ast_of
  matched_clauses spec rule source pairs parsed distinct title description falsepositives level
        event =
      let nodes = map (condition_node library rule.evidence) pairs in
      let (words, filled) = parsed_parts library rule.detection_logic pairs parsed in
      let compilable =
        compilable_nodes nodes (is_empty-map (condition_node library rule.evidence) pairs ∙ filled)
          (sound_nodes library hex rule.evidence pairs words) distinct in
      rule_matches-compile library str_text (ast_of library spec rule source pairs) title
        description falsepositives level event compilable
      ∙ ap₂
          (λ b m.
            if b
            then ok m
            else err (unsupported_condition (condition_expr all_of (map selection_name nodes))))
          (readable_nodes library hex rule.evidence (ast_of library spec rule source pairs).root.id
            pairs)
          (all_nodes library hex rule.evidence event pairs)

  -- Where `str` leaves texts as they are, hashes have no white space, and a specification gives a
  -- logic whose conditions' identifiers differ: the logic of the specification's first rule is read as a list of
  -- clauses, each a field and a text, and on every event the dynamic validation of the compiled rule returns, when
  -- there are one or two clauses, whether each field of the event contains its text; for three clauses or more it raises the
  -- error that the condition is not supported.
  pub rule_matches-from_spec :
      (spec : SpecPayload) (ast : DetectionAst)
      → from_spec library spec ≡ ok ast
      → distinct_ids ast.root.children ≡ true
      → (title description : String) (falsepositives : List String) (level : String)
        (event : Fields)
      → (rule : BehaviorRule) × (rules : List BehaviorRule) × (pairs : List (String × String))
        × (spec.behavior_rules ≡ rule ∷ rules)
        × (parse_contains_clauses library rule.detection_logic ≡ ok pairs)
        × (rule_matches library
              (compile library ast title description falsepositives level).detection
              event
            ≡ (if is_few pairs
                then ok (asked library event pairs)
                else err (
                    unsupported_condition
                      (condition_expr all_of (map selection_name ast.root.children)))))
  rule_matches-from_spec spec ast h distinct title description falsepositives level event =
      let (rule, rules, source, pairs, listed, parsed, same) = from_spec-Read library spec ast h in
      (
        rule,
        rules,
        pairs,
        listed,
        parsed,
        subst
            (λ (a : DetectionAst).
              distinct_ids a.root.children ≡ true
              → rule_matches library
                  (compile library a title description falsepositives level).detection event
                ≡ (if is_few pairs
                    then ok (asked library event pairs)
                    else err (
                        unsupported_condition
                          (condition_expr all_of (map selection_name a.root.children)))))
            (sym same)
            (λ d.
              matched_clauses spec rule source pairs parsed d title description falsepositives level
                event)
            distinct,
      )
