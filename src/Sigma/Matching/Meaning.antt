-- ===== src/Sigma/Matching/Meaning.antt =====
-- The compiled rule against the logic it was compiled from.
use text.Mathlib.TextLemmas.{append_cancel_left, cons-append}
use aicti.Base.{
  String, ◌==◌, ◌≡◌, refl, sym, ap, ◌∙◌, eq_iff, eq_refl, Bool, true, false, ◌&&◌, not, Option,
  none, some, List, [], ◌∷◌, any, all, concat, contains, is_plain, is_word, split_once,
  split_once-append, arith, and_true, and-true, ap₂, take_text, Bool-cases, inl, inr,
  is_word-append, is_space,
}
use aicti.Value.{Value, Fields, end, field, get, set, texts_of}
use aicti.Library.{Library}
use aicti.Sigma.{
  all_of, any_of, not_of, FieldConditionNode, LogicGroupNode, selection_name, text_list,
}
use aicti.Sigma.Matching.{
  observed, passes, normalized_values, selection_matches, strs, split_field_expr,
}

-- A condition holds of an event whose field contains one of the values.
abbrev pub holds : Library → Fields → FieldConditionNode → Bool
holds library event c = any (λ v. contains v (observed library c.field_name event)) c.values

abbrev pub meaning : Library → Fields → LogicGroupNode → Bool
meaning library event group = elim group.operator [
  | all_of ↦ all (holds library event) group.children
  | any_of ↦ any (holds library event) group.children
  | not_of ↦ not (any (holds library event) group.children)
]

-- What the dynamic validation can read back: one or two conditions, and no negation.
abbrev pub is_readable : LogicGroupNode → Bool
is_readable group = elim group.operator [
  | not_of ↦ false
  | _ ↦ elim group.children [ c ∷ [] ↦ true | c ∷ d ∷ [] ↦ true | _ ↦ false ]
]

abbrev pub is_whole : Option (String × String) → Bool
is_whole none = true
is_whole (some parts) = false

-- The identifier has no white space, the field has no `|`.
abbrev pub is_sound : FieldConditionNode → Bool
is_sound c = is_plain c.id && is_whole (split_once 124 c.field_name)

none-of_whole : (o : Option (String × String)) → is_whole o ≡ true → o ≡ none
none-of_whole none h = refl
none-of_whole (some parts) h = cc

pub sound_parts :
    (c : FieldConditionNode)
    → is_sound c ≡ true
    → (is_plain c.id ≡ true) × (split_once 124 c.field_name ≡ none)
sound_parts c h =
    let (plain, whole) = and_true (is_plain c.id) (is_whole (split_once 124 c.field_name)) h in
    (plain, none-of_whole _ whole)

pub get-set : (key : String) (v : Value) (fs : Fields) → get key (set key v fs) ≡ some v
unfolding get set
get-set key v end = rw (eq_refl key) refl
get-set key v (field k w fs) = ground (arith, get-set key v fs)

pub selection_name-is_word :
    (c : FieldConditionNode) → is_plain c.id ≡ true → is_word (selection_name c) ≡ true
unfolding selection_name is_space
selection_name-is_word c h = is_word-append "selection_" c.id refl h

pub not_condition : (c : FieldConditionNode) → (selection_name c == "condition") ≡ false
unfolding selection_name take_text
not_condition c = elim (Bool-cases (selection_name c == "condition")) [
  | inr e ↦ e
  | inl e ↦ letters (
      sym (ap (take_text 1) (cons-append _ "election_" c.id)) ∙ ap (take_text 1) ((eq_iff _ _).0 e))
]
  where
    letters : ◌≡◌ {A = String} "s" "c" → (selection_name c == "condition") ≡ false
    letters e = ground (arith, eq_iff "s" "c")

split_selection :
    (c : FieldConditionNode)
    → split_once 124 c.field_name ≡ none
    → split_field_expr (concat c.field_name "|contains") ≡ (c.field_name, "contains")
unfolding split_field_expr
split_selection c h =
    rw (split_once-append 124 c.field_name "contains" "|" h refl, split_field_expr) refl

pub selection_name-injective :
    (c d : FieldConditionNode)
    → (c.id == d.id) ≡ false
    → (selection_name c == selection_name d) ≡ false
unfolding selection_name
selection_name-injective c d h = elim (Bool-cases (selection_name c == selection_name d)) [
  | inr e ↦ e
  | inl e ↦ differ (append_cancel_left "selection_" c.id d.id ((eq_iff _ _).0 e))
]
  where
    differ : c.id ≡ d.id → (selection_name c == selection_name d) ≡ false
    differ e = ground (arith, eq_iff c.id d.id)

strs-texts_of :
    (library : Library)
    → ((s : String) → library.str (Value.text s) ≡ s)
    → (vs : List String) → strs library (texts_of vs) ≡ vs
unfolding strs texts_of
strs-texts_of library law [] = refl
strs-texts_of library law (v ∷ vs) = ap₂ (λ a b. a ∷ b) (law v) (strs-texts_of library law vs)

passes-contains :
    (library : Library) (values : List String) (seen : String)
    → passes library "contains" values seen ≡ any (λ v. contains v seen) values
unfolding passes
passes-contains library values seen = elim (Bool-cases (any (λ v. contains v seen) values)) [
  | inl e ↦ rw e refl
  | inr e ↦ rw e refl
]

-- The selection of a condition matches where the condition holds.
pub selection_matches-selection :
    (library : Library)
    → ((s : String) → library.str (Value.text s) ≡ s)
    → (c : FieldConditionNode) (event : Fields) → split_once 124 c.field_name ≡ none
    → selection_matches library
        (field (concat c.field_name "|contains") (text_list c.values) end)
        event
      ≡ holds library event c
unfolding selection_matches normalized_values text_list
selection_matches-selection library law c event h =
    rw (split_selection c h, strs-texts_of library law c.values, passes-contains) (and-true _)
