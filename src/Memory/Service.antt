-- ===== src/Memory/Service.antt =====
-- services/memory_service.py: `write`, for the policy that the service is made with.
use aicti.Base.{
  ℕ, suc, String, ◌==◌, concat, Bool, false, ◌&&◌, not, Option, none, some, List, [], ◌∷◌, ◌++◌,
  first, Result, ok, err, if◌then◌else◌, ◌=?◌,
}
use aicti.Value.{Value, Fields, end, field, get, is_finite}
use aicti.Library.{Library}
use aicti.Hashing.{snapshot_hash}
use aicti.Db.{MemoryView}
use aicti.Db.Action.{Action, ◌>>=◌, ◌>>◌, pure, modify, require, draw}
use aicti.Memory.{
  MemoryError, access_denied, version_conflict, malformed, value_error, operational_error,
  MemoryWriteResult, hash_payload, prev_value, latest_of,
}

-- What is given to `write`.
pub record MemoryWrite : Type 0 where
  pub run_id : String
  pub namespace : String
  pub role : String
  pub stage : String
  pub operation : String
  pub payload : Fields
  pub expected_version : ℕ

-- Role, namespace, operation, stage and the state of the run.
abbrev pub Policy : Type 0
Policy = String → String → String → String → String → Bool

-- The engine that the service takes by default.
pub can_access : Policy
can_access role namespace operation stage run_state =
    not (role == "")
    && not (namespace == "")
    && operation == "write"
    && not (stage == "")
    && run_state == "active"

unfoldable pub scope_of : MemoryWrite → String
scope_of w = concat w.run_id (concat ":" w.namespace)

-- `expected_version == current_version`
unfoldable pub is_version : Value → ℕ → Bool
is_version (Value.int n) expected = n =? expected
is_version _ expected = false

-- The rows after `INSERT ... ON CONFLICT(scope, key) DO UPDATE`, where the statement runs.
unfoldable pub put_view : String → Value → List MemoryView → List MemoryView
put_view scope value [] = (record { scope = scope; key = "latest"; value = some value }) ∷ []
put_view scope value (view ∷ views) =
    let rest = put_view scope value views in
    if latest_of scope view then record view { value = some value } ∷ views else view ∷ rest

-- The statement itself: SQLite refuses it where no unique index is on the two columns.
unfoldable pub upsert_view : String → Value → Action MemoryError (Unit {0})
upsert_view scope value db =
    if db.views_are_unique
    then (ok tt, record db { memory_views = put_view scope value db.memory_views })
    else (err operational_error, db)

-- `int(value)`, which is `none` where it raises.
module _ (library : Library) (to_int : Value → Option Value) where
  -- `current_version` and `prev_hash` of a view.
  unfoldable pub state_of : Option Value → Result MemoryError (Value × Option String)
  state_of (some (Value.dict state)) = elim (get "version" state) [
    | none ↦ err malformed
    | some v ↦ elim (to_int v) [
      | none ↦ err malformed
      | some version ↦ elim (get "last_event_hash" state) [
        | none ↦ err malformed
        | some hash ↦ ok (version, some (library.str hash))
      ]
    ]
  ]
  state_of _ = err malformed

  unfoldable pub current_state : Option MemoryView → Result MemoryError (Value × Option String)
  current_state none = ok (Value.int 0, none)
  current_state (some view) = state_of view.value

-- The `hash_payload` of a write.
unfoldable pub hashed_payload : MemoryWrite → ℕ → Option String → Value
hashed_payload w version prev_hash =
    hash_payload (Value.text w.run_id) (Value.text w.namespace) (Value.int version)
      (Value.dict w.payload) (prev_value prev_hash) (Value.text w.role) (Value.text w.stage)

module _ (library : Library) where
  unfoldable pub event_hash_of : MemoryWrite → ℕ → Option String → String
  event_hash_of w version prev_hash = snapshot_hash library (hashed_payload w version prev_hash)

  unfoldable pub event_payload : MemoryWrite → ℕ → Option String → Value
  event_payload w version prev_hash = Value.dict (
      field "run_id" (Value.text w.run_id) (
        field "namespace" (Value.text w.namespace) (
          field "version" (Value.int version) (
            field "payload" (Value.dict w.payload) (
              field "prev_hash" (prev_value prev_hash) (
                field "event_hash" (Value.text (event_hash_of w version prev_hash)) (
                  field "actor_role" (Value.text w.role)
                    (field "stage" (Value.text w.stage) end))))))))

  unfoldable pub view_payload : MemoryWrite → ℕ → String → Value
  view_payload w version event_hash = Value.dict (
      field "version" (Value.int version) (
        field "payload" (Value.dict w.payload)
          (field "last_event_hash" (Value.text event_hash) end)))

  -- From the hash, which may raise, to the end.
  unfoldable pub append_event :
      (ℕ → String) → MemoryWrite → ℕ → Option String → Action MemoryError MemoryWriteResult
  append_event uuid4 w version prev_hash = do
    require (is_finite (hashed_payload w version prev_hash)) value_error
    event_id ← draw uuid4
    modify (λ db. record db {
      memory_events =
          db.memory_events
          ++ (record {
            id = event_id;
            scope = scope_of w;
            key = version;
            value = some (event_payload w version prev_hash);
          })
            ∷ [];
    })
    view_id ← draw uuid4
    upsert_view (scope_of w) (view_payload w version (event_hash_of w version prev_hash))
    pure (record { version = version; event_hash = event_hash_of w version prev_hash })

module _ (library : Library) (to_int : Value → Option Value) where
  unfoldable pub write : Policy → (ℕ → String) → MemoryWrite → Action MemoryError MemoryWriteResult
  write policy uuid4 w = do
    require (policy w.role w.namespace w.operation w.stage "active") access_denied
    state ←
        (λ db. (current_state library to_int (first (latest_of (scope_of w)) db.memory_views), db))
    require (is_version state.0 w.expected_version) version_conflict
    append_event library uuid4 w (suc w.expected_version) state.1
