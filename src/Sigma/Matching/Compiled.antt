-- ===== src/Sigma/Matching/Compiled.antt =====
-- What the dynamic validation makes of a compiled rule.
use aicti.Base.{
  String, ◌==◌, ◌≡◌, refl, sym, ap, ◌∙◌, eq_refl, Bool, true, false, ◌&&◌, ◌||◌, not, some, List,
  [], ◌∷◌, map, all, words, is_plain, is_word, is_space, between, words-strip, words-join, Result,
  ok, err, if◌then◌else◌, and_true, and_intro, and-true, arith,
}
use aicti.Value.{Value, Fields, end, field, get, set}
use aicti.Library.{Library}
use aicti.Sigma.{
  LogicOperator, all_of, any_of, not_of, FieldConditionNode, LogicGroupNode, DetectionAst,
  selection_name, selection_of, add_selections, condition_expr, compile, compiled_detection,
}
use aicti.Sigma.Matching.{
  MatchError, unsupported_condition, rule_matches, evaluate_condition, by_tokens, by_condition,
  evaluated, find_name,
}
use aicti.Sigma.Matching.Meaning.{
  holds, meaning, is_readable, is_sound, sound_parts, selection_name-is_word, get-set,
  not_condition, selection_name-injective, selection_matches-selection,
}
use aicti.Sigma.Matching.Tokens.{
  not_blank, words-not_of, by_tokens-not, by_tokens-many, all-map-selection_name,
}

-- The identifiers of the conditions differ.
abbrev pub distinct_ids : List FieldConditionNode → Bool
distinct_ids [] = true
distinct_ids (c ∷ cs) = all (λ (d : FieldConditionNode). not (c.id == d.id)) cs && distinct_ids cs

set-other :
    (key k : String) (v w : Value) (fs : Fields)
    → (k == key) ≡ false
    → set key v (field k w fs) ≡ field k w (set key v fs)
unfolding set
set-other key k v w fs h = rw h refl

compiled_condition :
    (ast : DetectionAst)
    → get "condition" (compiled_detection ast)
      ≡ some (Value.text (condition_expr ast.root.operator (map selection_name ast.root.children)))
unfolding compiled_detection
compiled_condition ast = get-set "condition" _ _

abbrev compiled_parts : LogicOperator → List FieldConditionNode → Fields
compiled_parts op cs =
    set "condition" (Value.text (condition_expr op (map selection_name cs))) (add_selections cs end)

or-false : (b : Bool) → (b || false) ≡ b
or-false true = refl
or-false false = refl

module _ (library : Library) (event : Fields) where
  -- The evaluation of a condition with the tokens given.
  by_condition-words :
      (condition t : String) (ts : List String) (eval_map : List (String × Bool))
      → words condition ≡ t ∷ ts
      → by_condition library (some (Value.text condition)) eval_map
        ≡ by_tokens condition (t ∷ ts) eval_map
  unfolding by_condition evaluate_condition
  by_condition-words condition t ts eval_map h =
      rw (not_blank condition t ts h) (rw (words-strip condition) (rw h refl))

  evaluated_condition :
      (s : String) → evaluated library (set "condition" (Value.text s) end) event ≡ []
  unfolding evaluated set
  evaluated_condition s = refl

module _ (library : Library) (str_text : (s : String) → library.str (Value.text s) ≡ s)
    (event : Fields) where
  -- A selection that stands before the others.
  evaluated-selection :
      (c : FieldConditionNode) (fs : Fields)
      → is_sound c ≡ true
      → evaluated library (field (selection_name c) (selection_of c) fs) event
        ≡ (selection_name c, holds library event c) ∷ evaluated library fs event
  unfolding evaluated selection_of
  evaluated-selection c fs h =
      rw (not_condition c)
        (rw (selection_matches-selection library str_text c event (sound_parts c h).1) refl)

  evaluated_one :
      (c : FieldConditionNode) (s : String)
      → is_sound c ≡ true
      → evaluated library (set "condition" (Value.text s) (add_selections (c ∷ []) end)) event
        ≡ (selection_name c, holds library event c) ∷ []
  unfolding add_selections set
  evaluated_one c s h =
      ap (λ fs. evaluated library fs event)
        (set-other "condition" (selection_name c) (Value.text s) (selection_of c) end
          (not_condition c))
      ∙ evaluated-selection c _ h
      ∙ ap (λ rest. (selection_name c, holds library event c) ∷ rest)
          (evaluated_condition library event s)

  evaluated_two :
      (c d : FieldConditionNode) (s : String)
      → is_sound c ≡ true
      → is_sound d ≡ true
      → (c.id == d.id) ≡ false
      → evaluated library (set "condition" (Value.text s) (add_selections (c ∷ d ∷ []) end)) event
        ≡ (selection_name c, holds library event c) ∷ (selection_name d, holds library event d) ∷ []
  unfolding add_selections set
  evaluated_two c d s h k differ =
      ap (λ fs. evaluated library (set "condition" (Value.text s) fs) event)
        (set-other (selection_name d) (selection_name c) (selection_of d) (selection_of c) end
          (selection_name-injective c d differ))
      ∙ ap (λ fs. evaluated library fs event)
          (set-other "condition" (selection_name c) (Value.text s) (selection_of c) _
            (not_condition c))
      ∙ evaluated-selection c _ h
      ∙ ap (λ rest. (selection_name c, holds library event c) ∷ rest)
          (ap (λ fs. evaluated library fs event)
              (set-other "condition" (selection_name d) (Value.text s) (selection_of d) end
                (not_condition d))
            ∙ evaluated-selection d _ k
            ∙ ap (λ rest. (selection_name d, holds library event d) ∷ rest)
                (evaluated_condition library event s))

-- The token tests on what one or two selections give.
by_tokens-one :
    (condition n : String) (b : Bool) → by_tokens condition (n ∷ []) ((n, b) ∷ []) ≡ ok b
unfolding by_tokens find_name
by_tokens-one condition n b = rw (eq_refl n) refl

find_first :
    (n : String) (b : Bool) (rest : List (String × Bool)) → find_name n ((n, b) ∷ rest) ≡ ok b
unfolding find_name
find_first n b rest = rw (eq_refl n) refl

find_second :
    (n m : String) (a b : Bool) → (n == m) ≡ false → find_name m ((n, a) ∷ (m, b) ∷ []) ≡ ok b
unfolding find_name
find_second n m a b differ = rw differ (rw (eq_refl m) refl)

by_tokens-and :
    (condition n m : String) (a b : Bool)
    → (n == m) ≡ false
    → by_tokens condition (n ∷ "and" ∷ m ∷ []) ((n, a) ∷ (m, b) ∷ []) ≡ ok (a && b)
unfolding by_tokens
by_tokens-and condition n m a b differ =
    rw (find_first n a ((m, b) ∷ [])) (rw (find_second n m a b differ) refl)

by_tokens-or :
    (condition n m : String) (a b : Bool)
    → (n == m) ≡ false
    → by_tokens condition (n ∷ "or" ∷ m ∷ []) ((n, a) ∷ (m, b) ∷ []) ≡ ok (a || b)
unfolding by_tokens
by_tokens-or condition n m a b differ =
    rw (find_first n a ((m, b) ∷ [])) (rw (find_second n m a b differ) refl)

module _ (library : Library) (str_text : (s : String) → library.str (Value.text s) ≡ s)
    (event : Fields) where
  matched-words :
      (s t : String) (ts : List String) (fs : Fields)
      → words s ≡ t ∷ ts
      → rule_matches library (set "condition" (Value.text s) fs) event
        ≡ by_tokens s (t ∷ ts) (evaluated library (set "condition" (Value.text s) fs) event)
  unfolding rule_matches
  matched-words s t ts fs h =
      ap (λ v. by_condition library v (evaluated library (set "condition" (Value.text s) fs) event))
        (get-set "condition" (Value.text s) fs)
      ∙ by_condition-words library event s t ts _ h

  matched_one :
      (c : FieldConditionNode)
      → is_sound c ≡ true
      → rule_matches library
          (set "condition" (Value.text (selection_name c)) (add_selections (c ∷ []) end))
          event
        ≡ ok (holds library event c)
  unfolding is_space
  matched_one c h =
      matched-words (selection_name c) (selection_name c) [] _ (
        words-join "and" (selection_name c ∷ []) refl
          (and_intro (selection_name-is_word c (sound_parts c h).0) refl))
      ∙ ap (by_tokens (selection_name c) (selection_name c ∷ []))
          (evaluated_one library str_text event c (selection_name c) h)
      ∙ by_tokens-one _ _ _

  module _ (c d : FieldConditionNode) (c_sound : is_sound c ≡ true) (d_sound : is_sound d ≡ true)
      (differ : (c.id == d.id) ≡ false) where
    are_words : all is_word (selection_name c ∷ selection_name d ∷ []) ≡ true
    are_words =
        and_intro (selection_name-is_word c (sound_parts c c_sound).0)
          (and_intro (selection_name-is_word d (sound_parts d d_sound).0) refl)

    matched_all :
        rule_matches library (compiled_parts all_of (c ∷ d ∷ [])) event
        ≡ ok (holds library event c && holds library event d)
    unfolding condition_expr is_space
    matched_all =
        matched-words _ (selection_name c) ("and" ∷ selection_name d ∷ []) _
          (words-join "and" (selection_name c ∷ selection_name d ∷ []) refl are_words)
        ∙ ap (by_tokens _ (selection_name c ∷ "and" ∷ selection_name d ∷ []))
            (evaluated_two library str_text event c d _ c_sound d_sound differ)
        ∙ by_tokens-and _ _ _ _ _ (selection_name-injective c d differ)

    matched_any :
        rule_matches library (compiled_parts any_of (c ∷ d ∷ [])) event
        ≡ ok (holds library event c || holds library event d)
    unfolding condition_expr is_space
    matched_any =
        matched-words _ (selection_name c) ("or" ∷ selection_name d ∷ []) _
          (words-join "or" (selection_name c ∷ selection_name d ∷ []) refl are_words)
        ∙ ap (by_tokens _ (selection_name c ∷ "or" ∷ selection_name d ∷ []))
            (evaluated_two library str_text event c d _ c_sound d_sound differ)
        ∙ by_tokens-or _ _ _ _ _ (selection_name-injective c d differ)

  -- Three selections or more, whatever is between them.
  matched_many :
      (op s t u v : String) (ts : List String) (fs : Fields)
      → words s ≡ between op (t ∷ u ∷ v ∷ ts)
      → rule_matches library (set "condition" (Value.text s) fs) event
        ≡ err (unsupported_condition s)
  matched_many op s t u v ts fs h = matched-words s t _ fs h ∙ by_tokens-many s op t u v ts _

  matched_not :
      (t : String) (ts : List String) (fs : Fields)
      → all is_word (t ∷ ts) ≡ true
      → rule_matches library
          (set "condition" (Value.text (condition_expr not_of (t ∷ ts))) fs)
          event
        ≡ err (unsupported_condition (condition_expr not_of (t ∷ ts)))
  matched_not t ts fs h = matched-words _ "not" _ fs (words-not_of t ts h) ∙ by_tokens-not _ _ ts _

-- Each condition can be read back.
abbrev pub are_sound : List FieldConditionNode → Bool
are_sound = all is_sound

are_plain :
    (cs : List FieldConditionNode)
    → are_sound cs ≡ true
    → all (λ (c : FieldConditionNode). is_plain c.id) cs ≡ true
are_plain [] h = refl
are_plain (c ∷ cs) h =
    let (first, rest) = and_true (is_sound c) (are_sound cs) h in
    and_intro (sound_parts c first).0 (are_plain cs rest)

two_parts :
    (c d : FieldConditionNode)
    → are_sound (c ∷ d ∷ []) ≡ true
    → distinct_ids (c ∷ d ∷ []) ≡ true
    → (is_sound c ≡ true) × (is_sound d ≡ true) × ((c.id == d.id) ≡ false)
two_parts c d sound distinct =
    let (first, rest) = and_true (is_sound c) _ sound in
    let differ = (and_true (not (c.id == d.id)) true (and_true _ true distinct).0).0 in
    (first, (and_true (is_sound d) true rest).0, ground (arith, differ))

-- What the dynamic validation should return for the rule of a logic.
abbrev pub read_back : Library → Fields → LogicGroupNode → Result MatchError Bool
read_back library event group =
    if is_readable group
    then ok (meaning library event group)
    else err
        (unsupported_condition (condition_expr group.operator (map selection_name group.children)))

module _ (library : Library) (str_text : (s : String) → library.str (Value.text s) ≡ s)
    (event : Fields) where
  read_back-parts :
      (id : String) (op : LogicOperator) (c : FieldConditionNode) (cs : List FieldConditionNode)
      → are_sound (c ∷ cs) ≡ true
      → distinct_ids (c ∷ cs) ≡ true
      → rule_matches library (compiled_parts op (c ∷ cs)) event
        ≡ read_back library event (record { id = id; operator = op; children = c ∷ cs })
  unfolding condition_expr is_space
  read_back-parts id not_of c cs sound distinct =
      matched_not library str_text event (selection_name c) (map selection_name cs) _
        (all-map-selection_name (c ∷ cs) (are_plain (c ∷ cs) sound))
  read_back-parts id all_of c [] sound distinct =
      matched_one library str_text event c (and_true _ _ sound).0 ∙ ap ok (sym (and-true _))
  read_back-parts id any_of c [] sound distinct =
      matched_one library str_text event c (and_true _ _ sound).0 ∙ ap ok (sym (or-false _))
  read_back-parts id all_of c (d ∷ []) sound distinct =
      matched_all library str_text event c d (two_parts c d sound distinct).0
        (two_parts c d sound distinct).1 (two_parts c d sound distinct).2
      ∙ ap (λ b. ok (holds library event c && b)) (sym (and-true _))
  read_back-parts id any_of c (d ∷ []) sound distinct =
      matched_any library str_text event c d (two_parts c d sound distinct).0
        (two_parts c d sound distinct).1 (two_parts c d sound distinct).2
      ∙ ap (λ b. ok (holds library event c || b)) (sym (or-false _))
  read_back-parts id all_of c (d ∷ e ∷ cs) sound distinct =
      matched_many library str_text event "and" _ (selection_name c) (selection_name d)
        (selection_name e) (map selection_name cs) _
        (words-join "and" (map selection_name (c ∷ d ∷ e ∷ cs)) refl
          (all-map-selection_name (c ∷ d ∷ e ∷ cs) (are_plain (c ∷ d ∷ e ∷ cs) sound)))
  read_back-parts id any_of c (d ∷ e ∷ cs) sound distinct =
      matched_many library str_text event "or" _ (selection_name c) (selection_name d)
        (selection_name e) (map selection_name cs) _
        (words-join "or" (map selection_name (c ∷ d ∷ e ∷ cs)) refl
          (all-map-selection_name (c ∷ d ∷ e ∷ cs) (are_plain (c ∷ d ∷ e ∷ cs) sound)))

-- At least one condition, the conditions readable and with identifiers of their own.
abbrev pub is_compilable : List FieldConditionNode → Bool
is_compilable [] = false
is_compilable (c ∷ cs) = are_sound (c ∷ cs) && distinct_ids (c ∷ cs)

read_back-group :
    (library : Library)
    → ((s : String) → library.str (Value.text s) ≡ s)
    → (event : Fields) (id : String) (op : LogicOperator) (cs : List FieldConditionNode)
    → is_compilable cs ≡ true
    → rule_matches library (compiled_parts op cs) event
      ≡ read_back library event (record { id = id; operator = op; children = cs })
read_back-group library str_text event id op [] h = cc
read_back-group library str_text event id op (c ∷ cs) h =
    let (sound, distinct) = and_true (are_sound (c ∷ cs)) (distinct_ids (c ∷ cs)) h in
    read_back-parts library str_text event id op c cs sound distinct

-- Where `str` leaves texts as they are, a logic has at least one condition, the conditions' identifiers
-- differ and have no white space, and their fields have no `|`: on every event the dynamic validation of
-- the compiled rule returns whether the logic holds of the event, when the logic is a conjunction or
-- a disjunction of one or two conditions; for three conditions or more, and for a negation, it raises the
-- error that the condition is not supported.
pub rule_matches-compile :
    (library : Library)
    → ((s : String) → library.str (Value.text s) ≡ s)
    → (ast : DetectionAst) (title description : String) (falsepositives : List String)
      (level : String) (event : Fields)
    → is_compilable ast.root.children ≡ true
    → rule_matches library
        (compile library ast title description falsepositives level).detection
        event
      ≡ (if is_readable ast.root
          then ok (meaning library event ast.root)
          else err (
              unsupported_condition
                (condition_expr ast.root.operator (map selection_name ast.root.children))))
unfolding compile compiled_detection
rule_matches-compile library str_text ast title description falsepositives level event h =
    read_back-group library str_text event ast.root.id ast.root.operator ast.root.children h
