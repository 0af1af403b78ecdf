-- ===== src/Memory.antt =====
-- services/memory_service.py: what a memory event is, how its hash is computed and checked, and how
-- the events are read back. A JSON column stands as the value that its text decodes to.
pub mod Order
pub mod Chain
pub mod Service
pub mod Appends
pub mod Writes
pub mod Replay
pub mod Sessions
pub mod Intact
pub mod Policy
use aicti.Base.{
  ℕ, suc, String, ◌==◌, concat, Bool, true, false, ◌&&◌, not, Option, none, some, List, [], ◌∷◌,
  map, keep, first, Result, ok, err, ◌>>=◌, ◌>>◌, require, if◌then◌else◌, ◌=?◌, ltb, text_lt,
  sorted_texts,
}
use aicti.Value.{Value, Fields, end, field, get, is_text, is_finite}
use aicti.Library.{Library}
use aicti.Hashing.{snapshot_hash}
use aicti.Db.{Db, MemoryEvent, MemoryView}

-- The exceptions of the service, `value_error` of the hash and `operational_error` of SQLite included; `malformed` stands for what Python raises on a row whose value is not
-- what the service writes.
pub data MemoryError : Type 0 where
  access_denied version_conflict : MemoryError
  discontinuity hash_mismatch missing_view view_mismatch malformed : MemoryError
  value_error operational_error : MemoryError

pub record MemoryWriteResult : Type 0 where
  pub version : ℕ
  pub event_hash : String

-- `payload.get(key)`, where `null` stands for None.
unfoldable pub get_or_null : String → Fields → Value
get_or_null key fields = elim (get key fields) [ none ↦ Value.null | some v ↦ v ]

-- `payload[key]`
unfoldable pub required : String → Fields → Result MemoryError Value
required key fields = elim (get key fields) [ none ↦ err malformed | some v ↦ ok v ]

unfoldable pub hash_payload :
    (run_id namespace version payload prev_hash actor_role stage : Value) → Value
hash_payload run_id namespace version payload prev_hash actor_role stage = Value.dict (
    field "run_id" run_id (
      field "namespace" namespace (
        field "version" version (
          field "payload" payload (
            field "prev_hash" prev_hash
              (field "actor_role" actor_role (field "stage" stage end)))))))

-- None is `null`.
unfoldable pub prev_value : Option String → Value
prev_value none = Value.null
prev_value (some hash) = Value.text hash

-- Whether `prev_hash == expected_prev`.
unfoldable pub is_prev : Option String → Value → Bool
is_prev none Value.null = true
is_prev (some hash) (Value.text t) = t == hash
is_prev _ _ = false

unfoldable pub latest_of : String → MemoryView → Bool
latest_of scope view = view.scope == scope && view.key == "latest"

-- `dict.get` and assignment, for a dictionary by scope; an old key keeps its place.
unfoldable pub lookup : String → List (String × String) → Option String
lookup scope [] = none
lookup scope ((s, hash) ∷ latest) = if s == scope then some hash else lookup scope latest

unfoldable pub put : String → String → List (String × String) → List (String × String)
put scope hash [] = (scope, hash) ∷ []
put scope hash ((s, old) ∷ latest) =
    let rest = put scope hash latest in if s == scope then (s, hash) ∷ latest else (s, old) ∷ rest

-- `ORDER BY scope ASC, CAST(key AS INTEGER) ASC`
unfoldable pub precedes : MemoryEvent → MemoryEvent → Bool
precedes a b = if a.scope == b.scope then not (ltb b.key a.key) else text_lt a.scope b.scope

unfoldable pub insert_event : MemoryEvent → List MemoryEvent → List MemoryEvent
insert_event e [] = e ∷ []
insert_event e (f ∷ events) =
    let rest = insert_event e events in if precedes e f then e ∷ f ∷ events else f ∷ rest

unfoldable pub in_order : List MemoryEvent → List MemoryEvent
in_order [] = []
in_order (e ∷ events) = insert_event e (in_order events)

abbrev pub map_some : (String → String) → Option String → Option String
map_some f none = none
map_some f (some s) = some (f s)

-- `snapshot_hash(payload)`, which raises where the payload holds NaN or an infinity.
unfoldable pub checked_hash : Library → Value → Result MemoryError String
checked_hash library payload = do
  require (is_finite payload) value_error
  ok (snapshot_hash library payload)

module _ (library : Library) where
  -- The hash that the event's payload should have.
  unfoldable pub recomputed : Fields → Result MemoryError String
  recomputed event = do
    run_id ← required "run_id" event
    namespace ← required "namespace" event
    version ← required "version" event
    payload ← required "payload" event
    actor_role ← required "actor_role" event
    stage ← required "stage" event
    checked_hash library (
        hash_payload run_id namespace version payload (get_or_null "prev_hash" event) actor_role
          stage)

  -- The body of the loop over the events: the event's hash, after the tests on it.
  unfoldable pub check_event : Option String → Option Value → Result MemoryError String
  check_event expected_prev (some (Value.dict event)) = do
    require (is_prev expected_prev (get_or_null "prev_hash" event)) discontinuity
    hash ← recomputed event
    require (is_text (get "event_hash" event) hash) hash_mismatch
    ok hash
  check_event expected_prev _ = err malformed

  -- `prev_hash_by_scope.get(scope)`: the two dictionaries by scope have the same keys.
  unfoldable pub expected_prev : String → List (String × String) → Option String
  expected_prev scope latest =
      map_some (λ hash. library.str (Value.text hash)) (lookup scope latest)

  unfoldable pub replay_events :
      List (String × String) → List MemoryEvent → Result MemoryError (List (String × String))
  replay_events latest [] = ok latest
  replay_events latest (event ∷ events) = do
    hash ← check_event (expected_prev event.scope latest) event.value
    replay_events (put event.scope hash latest) events

-- `view_payload.get("last_event_hash") == event_payload.get("event_hash")`, where the latter is `hash`.
unfoldable pub check_view : Option MemoryView → String → Result MemoryError (Unit {0})
check_view none hash = err missing_view
check_view (some view) hash = elim view.value [
  | some (Value.dict payload) ↦ require (is_text (get "last_event_hash" payload) hash) view_mismatch
  | _ ↦ err malformed
]

unfoldable pub check_views :
    List MemoryView → List (String × String) → Result MemoryError (Unit {0})
check_views views [] = ok tt
check_views views ((scope, hash) ∷ latest) = do
  check_view (first (latest_of scope) views) hash
  check_views views latest

-- The scopes of the run whose integrity has been shown; `like` is SQL's operator.
unfoldable pub replay :
    Library → (String → String → Bool) → String → Db → Result MemoryError (List String)
replay library like run_id db = do
  latest ←
      replay_events library []
        (in_order (keep (λ (e : MemoryEvent). like e.scope (concat run_id ":%")) db.memory_events))
  check_views db.memory_views latest
  ok (sorted_texts (map (λ (p : String × String). p.0) latest))
