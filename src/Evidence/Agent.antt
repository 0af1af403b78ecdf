-- ===== src/Evidence/Agent.antt =====
-- EvidenceAgentService of services/evidence.py. The retrieval and the language model are functions; the answer
-- of the model is a mapping, and its evidence a list of mappings.
use aicti.Base.{
  String, ◌==◌, Bool, true, false, ◌&&◌, ◌||◌, not, Option, none, some, List, [], ◌∷◌, keep, Result,
  ok, err, ◌>>=◌, if◌then◌else◌, slice_text, text_length, ℤ, pos, negsuc, above, ltb_ℤ,
}
use aicti.Value.{Value, Items, nil, cons, Fields, end, field, get}

-- A chunk without an identifier or a text, or with an identifier that is no key; evidence that is no list of
-- mappings.
pub data AgentError : Type 0 where
  key_error type_error : AgentError

-- The retrieved chunks as a dictionary; of two with one identifier the later stays.
lookup_text : String → List (Value × Value) → Option Value
lookup_text id [] = none
lookup_text id ((Value.text key, v) ∷ entries) = elim (lookup_text id entries) [
  | some later ↦ some later
  | none ↦ if key == id then some v else none
]
lookup_text id ((_, v) ∷ entries) = lookup_text id entries

is_hashable : Value → Bool
is_hashable (Value.list vs) = false
is_hashable (Value.dict fs) = false
is_hashable _ = true

entry_of : Option Value → Option Value → Result AgentError (Value × Value)
unfolding is_hashable
entry_of (some id) (some content) = if is_hashable id then ok (id, content) else err type_error
entry_of _ _ = err key_error

chunk_map : List Fields → Result AgentError (List (Value × Value))
unfolding entry_of
chunk_map [] = ok []
chunk_map (chunk ∷ chunks) = do
  entry ← entry_of (get "chunk_id" chunk) (get "text" chunk)
  entries ← chunk_map chunks
  ok (entry ∷ entries)

-- `isinstance(value, int)` and the integer; a truth value is one.
int_of : Option Value → Option ℤ
int_of (some (Value.int n)) = some (pos n)
int_of (some (Value.neg_int n)) = some (negsuc n)
int_of (some (Value.bool true)) = some (pos 1)
int_of (some (Value.bool false)) = some (pos 0)
int_of _ = none

-- The tests from the offsets on.
quotes_chunk : String → String → ℤ → ℤ → Bool
quotes_chunk chunk_text quote start_offset end_offset =
    not (
      ltb_ℤ start_offset (pos 0)
      || ltb_ℤ (pos (text_length chunk_text)) end_offset
      || not (ltb_ℤ start_offset end_offset))
    && slice_text chunk_text (above start_offset) (above end_offset) == quote

in_chunk : Option Value → String → Option ℤ → Option ℤ → Bool
unfolding quotes_chunk
in_chunk (some (Value.text chunk_text)) quote (some start_offset) (some end_offset) =
    quotes_chunk chunk_text quote start_offset end_offset
in_chunk _ quote start_offset end_offset = false

-- Whether an item is kept, by the texts it has.
is_cited : List (Value × Value) → Option Value → Option Value → Fields → Bool
unfolding in_chunk
is_cited entries (some (Value.text chunk_id)) (some (Value.text quote)) item =
    in_chunk (lookup_text chunk_id entries) quote (int_of (get "start_offset" item))
      (int_of (get "end_offset" item))
is_cited entries chunk_id quote item = false

is_grounded : List (Value × Value) → Fields → Bool
unfolding is_cited
is_grounded entries item = is_cited entries (get "chunk_id" item) (get "quote" item) item

mappings : Items → Result AgentError (List Fields)
mappings nil = ok []
mappings (cons (Value.dict fs) vs) = do rest ← mappings vs; ok (fs ∷ rest)
mappings (cons v vs) = err type_error

-- `llm_output.get("evidence", [])`
evidence_items : Option Value → Result AgentError (List Fields)
unfolding mappings
evidence_items none = ok []
evidence_items (some (Value.list vs)) = mappings vs
evidence_items (some v) = err type_error

dict_items : List Fields → Items
dict_items [] = nil
dict_items (fs ∷ rest) = cons (Value.dict fs) (dict_items rest)

-- What is returned for the evidence kept.
answer_with : String → List Fields → Value
unfolding dict_items
answer_with report_text [] = Value.dict (
    field "status" (Value.text "abstain") (
      field "abstain_code" (Value.text "NO_EVIDENCE_BACKED_BEHAVIOR") (
        field "query_plan" (Value.dict (field "query" (Value.text report_text) end))
          (field "evidence" (Value.list nil) end))))
answer_with report_text (item ∷ items) = Value.dict (
    field "status" (Value.text "ok") (
      field "query_plan" (Value.dict (field "query" (Value.text report_text) end))
        (field "evidence" (Value.list (dict_items (item ∷ items))) end)))

module _ (retrieve : String → String → List Fields)
    (generate_structured : String → Value → Fields) where
  -- The items that are kept.
  grounded : String → String → Result AgentError (List Fields)
  unfolding chunk_map evidence_items is_grounded
  grounded report_id report_text = do
    let chunks = retrieve report_text report_id
    let llm_output = generate_structured "evidence_output" (
        Value.dict (
          field "report_id" (Value.text report_id) (
            field "report_text" (Value.text report_text)
              (field "chunks" (Value.list (dict_items chunks)) end))))
    entries ← chunk_map chunks
    evidence ← evidence_items (get "evidence" llm_output)
    ok (keep (is_grounded entries) evidence)

  unfoldable extract : String → String → Result AgentError Value
  unfolding grounded answer_with
  extract report_id report_text = do
    items ← grounded report_id report_text
    ok (answer_with report_text items)
