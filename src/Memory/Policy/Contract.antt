-- ===== src/Memory/Policy/Contract.antt =====
-- The memory contract of a stage after a write of the memory service.
use text.Mathlib.TextLemmas.{cons-append, nil-append}
use aicti.Base.{
  ℕ, suc, String, ◌==◌, concat, ◌≡◌, refl, sym, ap, ◌∙◌, eq_refl, eq_iff, Bool, true, false, ◌&&◌,
  Option, none, some, List, [], ◌∷◌, keep, elem, first, split_once, split_once-append, ok, arith,
  Bool-cases, inl, inr, and_true,
}
use aicti.Value.{Value}
use aicti.Library.{Library}
use aicti.Db.{Db, MemoryView}
use aicti.Db.Action.{Action, ◌>>=◌, require, >>=-continues, require_same}
use aicti.Memory.{MemoryError, access_denied, version_conflict, MemoryWriteResult, latest_of}
use aicti.Memory.Service.{
  MemoryWrite, Policy, scope_of, put_view, write, current_state, is_version, append_event,
  view_payload, event_hash_of,
}
use aicti.Memory.Appends.{append_event-views}
use aicti.Memory.Policy.{
  namespace_from_scope, second_part, add_namespace, latest_payload_namespaces, available_namespaces,
  contract_of, stage_contract_missing, none_missing, require_memory_contract,
}

namespace_from_scope-scope_of :
    (w : MemoryWrite)
    → split_once 58 w.run_id ≡ none
    → namespace_from_scope (scope_of w) ≡ w.namespace
unfolding namespace_from_scope second_part scope_of
namespace_from_scope-scope_of w h =
    ap (λ t. second_part (split_once 58 (concat w.run_id t)))
      (cons-append _ "" w.namespace ∙ ap (String.◌∷◌ ":") (nil-append w.namespace))
    ∙ ap second_part (split_once-append 58 w.run_id w.namespace ":" h refl)

elem-add_namespace :
    (n m : String) (value : Option Value) (namespaces : List String)
    → elem ◌==◌ n namespaces ≡ true
    → elem ◌==◌ n (add_namespace m value namespaces) ≡ true
unfolding add_namespace
elem-add_namespace n m none namespaces h = h
elem-add_namespace n m (some value) namespaces h = ground (arith, h)

as_latest :
    (scope : String) (view : MemoryView)
    → latest_of scope view ≡ true
    → (view.scope == scope && view.key == "latest") ≡ true
unfolding latest_of
as_latest scope view h = h

-- The namespace of the view that was written is available.
elem-put_view :
    (scope namespace : String) (value : Value) (p : String → Bool) (views : List MemoryView)
    → namespace_from_scope scope ≡ namespace
    → (namespace == "") ≡ false
    → p scope ≡ true
    → elem ◌==◌ namespace (
        latest_payload_namespaces
          (keep (λ (v : MemoryView). p v.scope && v.key == "latest") (put_view scope value views)))
      ≡ true
unfolding put_view latest_payload_namespaces add_namespace
elem-put_view scope namespace value p [] h filled selected =
    rw selected (rw h (rw filled (rw (eq_refl namespace) refl)))
elem-put_view scope namespace value p (view ∷ views) h filled selected =
    elim (Bool-cases (latest_of scope view)) [
      | inl e ↦
          let (here, key) =
            and_true (view.scope == scope) (view.key == "latest") (as_latest scope view e) in
          let same = (eq_iff view.scope scope).0 here in
          rw e (
            rw (ap p same ∙ selected) (
              rw key
                (rw (ap namespace_from_scope same ∙ h) (rw filled (rw (eq_refl namespace) refl)))))
      | inr e ↦
          let ih = elem-put_view scope namespace value p views h filled selected in
          rw e (elim (Bool-cases (p view.scope && view.key == "latest")) [
            | inl f ↦
                rw f
                  (elem-add_namespace namespace (namespace_from_scope view.scope) view.value _ ih)
            | inr f ↦ rw f ih
          ])
    ]

-- A write that returns has put its view into the database.
write-views :
    (library : Library) (to_int : Value → Option Value) (policy : Policy) (uuid4 : ℕ → String)
    (w : MemoryWrite) (db : Db) (result : MemoryWriteResult)
    → (write library to_int policy uuid4 w db).0 ≡ ok result
    → (value : Value) × ((write library to_int policy uuid4 w db).1.memory_views
        ≡ put_view (scope_of w) value db.memory_views)
unfolding write
write-views library to_int policy uuid4 w db result h =
    let scope = scope_of w in
    let read : Action MemoryError (Value × Option String) =
      λ d. (current_state library to_int (first (latest_of scope) d.memory_views), d) in
    let append =
      λ (s : Value × Option String). append_event library uuid4 w (suc w.expected_version) s.1 in
    let checked = λ (s : Value × Option String).
      require (is_version s.0 w.expected_version) version_conflict >>= λ _. append s in
    let granted = require (policy w.role w.namespace w.operation w.stage "active") access_denied in
    let (u, first_step) = >>=-continues result granted (λ _. read >>= checked) db h in
    let at_db =
      require_same (policy w.role w.namespace w.operation w.stage "active") access_denied db in
    let read_ok = ap (λ o. o.0) (sym (first_step ∙ ap (read >>= checked) at_db)) ∙ h in
    let (s, second_step) = >>=-continues result read checked db read_ok in
    let check_ok = ap (λ o. o.0) (sym second_step) ∙ read_ok in
    let (v, third_step) =
      >>=-continues result (require (is_version s.0 w.expected_version) version_conflict)
        (λ _. append s) db check_ok in
    let done =
      first_step
      ∙ ap (read >>= checked) at_db
      ∙ second_step
      ∙ third_step
      ∙ ap (append s) (require_same (is_version s.0 w.expected_version) version_conflict db) in
    (
      view_payload library w (suc w.expected_version)
          (event_hash_of library w (suc w.expected_version) s.1),
      ap (λ o. o.1.memory_views) done
          ∙ append_event-views library uuid4 w db s.1 w.expected_version result
              (ap (λ o. o.0) (sym done) ∙ h),
    )

-- If a write returns, its namespace is not empty, the run's identifier has no colon and `LIKE` selects the
-- scopes of the run that the write is for: the namespace is then available to the run, and the memory
-- contract is met for every stage that requires that namespace only.
pub write-require_memory_contract :
    (library : Library) (to_int : Value → Option Value) (policy : Policy) (uuid4 : ℕ → String)
    (w : MemoryWrite) (db : Db) (result : MemoryWriteResult) (like : String → String → Bool)
    (stage : String)
    → (write library to_int policy uuid4 w db).0 ≡ ok result
    → (w.namespace == "") ≡ false
    → split_once 58 w.run_id ≡ none
    → like (scope_of w) (concat w.run_id ":%") ≡ true
    → contract_of stage ≡ w.namespace ∷ []
    → (elem ◌==◌ w.namespace
          (available_namespaces like w.run_id (write library to_int policy uuid4 w db).1)
        ≡ true)
      × (require_memory_contract like w.run_id stage (write library to_int policy uuid4 w db).1
          ≡ ok tt)
unfolding available_namespaces require_memory_contract stage_contract_missing none_missing
write-require_memory_contract library to_int policy uuid4 w db result like stage h filled plain
      selected contract =
    let (value, stored) = write-views library to_int policy uuid4 w db result h in
    let available =
      elem-put_view (scope_of w) w.namespace value (λ s. like s (concat w.run_id ":%"))
        db.memory_views (namespace_from_scope-scope_of w plain) filled selected in
    (rw stored available, rw stored (rw contract (rw available refl)))
