-- ===== src/Memory/Intact.antt =====
-- What a replay that raises nothing has shown.
use aicti.Base.{
  String, concat, ◌==◌, ◌≡◌, sym, ap, subst, ◌∙◌, eq_iff, Bool, Option, none, some, List, [], ◌∷◌,
  keep, first, ok, ok-injective, >>=-succeeds, Bool-cases, inl, inr, refl, err, true, false,
  require, Result,
}
use aicti.Value.{Value, Fields, get, is_text, is_finite}
use aicti.Hashing.{snapshot_hash}
use aicti.Library.{Library}
use aicti.Db.{Db, MemoryEvent, MemoryView}
use aicti.Memory.{
  MemoryError, malformed, discontinuity, hash_mismatch, view_mismatch, value_error, hash_payload,
  is_prev, prev_value, get_or_null, required, recomputed, checked_hash, check_event, check_view,
  check_views, expected_prev, lookup, put, replay_events, replay, in_order, latest_of,
}
use aicti.Memory.Order.{of_scope}
use aicti.Memory.Replay.{lookup-put_same, lookup-put_other, expected_prev-lookup}

-- The row of an event with the hash `hash`: its value is a dictionary whose previous hash is `p`, or
-- missing or null where `p` is none, and whose hash is that of its fields.
abbrev pub IsHashed : Library → Option String → Option Value → String → Type 0
IsHashed library p value hash =
    (event : Fields) × (run_id : Value) × (namespace : Value) × (version : Value)
    × (payload : Value) × (actor_role : Value) × (stage : Value) × (value ≡ some (Value.dict event))
    × (get_or_null "prev_hash" event ≡ prev_value p)
    × (get "event_hash" event ≡ some (Value.text hash))
    × (get "run_id" event ≡ some run_id)
    × (get "namespace" event ≡ some namespace)
    × (get "version" event ≡ some version)
    × (get "payload" event ≡ some payload)
    × (get "actor_role" event ≡ some actor_role)
    × (get "stage" event ≡ some stage)
    × (hash
        ≡ snapshot_hash library
            (hash_payload run_id namespace version payload (prev_value p) actor_role stage))

-- Each event has the hash of the one before it as its previous hash, from `p` to `q`.
abbrev pub Hashed : Library → Option String → List MemoryEvent → Option String → Type 0
Hashed library p [] q = p ≡ q
Hashed library p (e ∷ es) q =
    (hash : String) × IsHashed library p e.value hash × Hashed library (some hash) es q

-- The view of the scope has the hash too.
abbrev pub AtView : List MemoryView → String → Option String → Type 0
AtView views s none = Unit {0}
AtView views s (some hash) =
    (view : MemoryView) × (payload : Fields) × (first (latest_of s) views ≡ some view)
    × (view.value ≡ some (Value.dict payload))
    × (get "last_event_hash" payload ≡ some (Value.text hash))

is_text-some : (v : Option Value) (s : String) → is_text v s ≡ true → v ≡ some (Value.text s)
unfolding is_text
is_text-some none s h = cc
is_text-some (some Value.null) s h = cc
is_text-some (some (Value.bool b)) s h = cc
is_text-some (some (Value.int n)) s h = cc
is_text-some (some (Value.neg_int n)) s h = cc
is_text-some (some (Value.float t)) s h = cc
is_text-some (some (Value.list items)) s h = cc
is_text-some (some (Value.dict fields)) s h = cc
is_text-some (some (Value.text t)) s h = ap (λ u. some (Value.text u)) ((eq_iff t s).0 h)

is_prev-same : (p : Option String) (v : Value) → is_prev p v ≡ true → v ≡ prev_value p
unfolding is_prev prev_value
is_prev-same none Value.null h = refl
is_prev-same none (Value.bool b) h = cc
is_prev-same none (Value.int n) h = cc
is_prev-same none (Value.neg_int n) h = cc
is_prev-same none (Value.float t) h = cc
is_prev-same none (Value.text t) h = cc
is_prev-same none (Value.list items) h = cc
is_prev-same none (Value.dict fields) h = cc
is_prev-same (some hash) (Value.text t) h = ap Value.text ((eq_iff t hash).0 h)
is_prev-same (some hash) Value.null h = cc
is_prev-same (some hash) (Value.bool b) h = cc
is_prev-same (some hash) (Value.int n) h = cc
is_prev-same (some hash) (Value.neg_int n) h = cc
is_prev-same (some hash) (Value.float t) h = cc
is_prev-same (some hash) (Value.list items) h = cc
is_prev-same (some hash) (Value.dict fields) h = cc

answered :
    (o : Option Value) (v : Value)
    → ◌≡◌ {A = Result MemoryError Value} (elim o [ none ↦ err malformed | some u ↦ ok u ]) (ok v)
    → o ≡ some v
answered none v h = cc
answered (some u) v h = ap some (ok-injective h)

required-get :
    (key : String) (fields : Fields) (v : Value)
    → required key fields ≡ ok v
    → get key fields ≡ some v
unfolding required
required-get key fields v h = answered (get key fields) v h

require-true : (b : Bool) (e : MemoryError) (u : Unit {0}) → require b e ≡ ok u → b ≡ true
require-true true e u h = refl
require-true false e u h = cc

module _ (library : Library) where
  -- What the tests on an event that passes them have shown.
  check_event-IsHashed :
      (p : Option String) (value : Option Value) (hash : String)
      → check_event library p value ≡ ok hash
      → IsHashed library p value hash
  unfolding check_event recomputed checked_hash
  check_event-IsHashed p none hash h = cc
  check_event-IsHashed p (some Value.null) hash h = cc
  check_event-IsHashed p (some (Value.bool b)) hash h = cc
  check_event-IsHashed p (some (Value.int n)) hash h = cc
  check_event-IsHashed p (some (Value.neg_int n)) hash h = cc
  check_event-IsHashed p (some (Value.float t)) hash h = cc
  check_event-IsHashed p (some (Value.text t)) hash h = cc
  check_event-IsHashed p (some (Value.list items)) hash h = cc
  check_event-IsHashed p (some (Value.dict event)) hash h =
      let (u, linked, h1) =
        >>=-succeeds (require (is_prev p (get_or_null "prev_hash" event)) discontinuity) _ h in
      let (found, computed, h2) = >>=-succeeds (recomputed library event) _ h1 in
      let (u2, matches, h3) =
        >>=-succeeds (require (is_text (get "event_hash" event) found) hash_mismatch) _ h2 in
      let (run_id, a, k1) = >>=-succeeds (required "run_id" event) _ computed in
      let (namespace, b, k2) = >>=-succeeds (required "namespace" event) _ k1 in
      let (version, c, k3) = >>=-succeeds (required "version" event) _ k2 in
      let (payload, d, k4) = >>=-succeeds (required "payload" event) _ k3 in
      let (actor_role, e, k5) = >>=-succeeds (required "actor_role" event) _ k4 in
      let (stage, f, k6) = >>=-succeeds (required "stage" event) _ k5 in
      let fields : Value → Value =
        λ v. hash_payload run_id namespace version payload v actor_role stage in
      let (u3, finite, k7) =
        >>=-succeeds (require (is_finite (fields (get_or_null "prev_hash" event))) value_error) _
          k6 in
      let previous = is_prev-same p _ (require-true _ _ u linked) in
      let is = ok-injective h3 in
      (
        event,
        run_id,
        namespace,
        version,
        payload,
        actor_role,
        stage,
        refl,
        previous,
        is_text-some _ found (require-true _ _ u2 matches) ∙ ap (λ t. some (Value.text t)) is,
        required-get _ _ _ a,
        required-get _ _ _ b,
        required-get _ _ _ c,
        required-get _ _ _ d,
        required-get _ _ _ e,
        required-get _ _ _ f,
        sym is ∙ sym (ok-injective k7) ∙ ap (λ v. snapshot_hash library (fields v)) previous,
      )

check_view-value :
    (value : Option Value) (hash : String)
    → elim value [
      | some (Value.dict payload) ↦
          require (is_text (get "last_event_hash" payload) hash) view_mismatch
      | _ ↦ err malformed
    ]
      ≡ ok tt
    → (payload : Fields) × (value ≡ some (Value.dict payload))
      × (get "last_event_hash" payload ≡ some (Value.text hash))
check_view-value none hash h = cc
check_view-value (some Value.null) hash h = cc
check_view-value (some (Value.bool b)) hash h = cc
check_view-value (some (Value.int n)) hash h = cc
check_view-value (some (Value.neg_int n)) hash h = cc
check_view-value (some (Value.float t)) hash h = cc
check_view-value (some (Value.text t)) hash h = cc
check_view-value (some (Value.list items)) hash h = cc
check_view-value (some (Value.dict payload)) hash h =
    (payload, refl, is_text-some _ hash (require-true _ view_mismatch tt h))

check_view-row :
    (row : Option MemoryView) (hash : String)
    → check_view row hash ≡ ok tt
    → (view : MemoryView) × (payload : Fields) × (row ≡ some view)
      × (view.value ≡ some (Value.dict payload))
      × (get "last_event_hash" payload ≡ some (Value.text hash))
unfolding check_view
check_view-row none hash h = cc
check_view-row (some view) hash h =
    let (payload, value, last) = check_view-value view.value hash h in
    (view, payload, refl, value, last)

module _ (library : Library) (str_text : (s : String) → library.str (Value.text s) ≡ s) where
  replay_events-Hashed :
      (latest : List (String × String)) (rows : List MemoryEvent) (final : List (String × String))
      → replay_events library latest rows ≡ ok final
      → (s : String) → Hashed library (lookup s latest) (keep (of_scope s) rows) (lookup s final)
  unfolding replay_events
  replay_events-Hashed latest [] final h s = ap (lookup s) (ok-injective h)
  replay_events-Hashed latest (e ∷ rows) final h s =
      let (hash, checked, rest) =
        >>=-succeeds (check_event library (expected_prev library e.scope latest) e.value) _ h in
      let ih = replay_events-Hashed (put e.scope hash latest) rows final rest s in
      elim (Bool-cases (of_scope s e)) [
        | inl same ↦
            let here : e.scope ≡ s = (eq_iff e.scope s).0 same in
            let was : expected_prev library e.scope latest ≡ lookup s latest =
              expected_prev-lookup library str_text e.scope latest
              ∙ ap (λ t. lookup t latest) here in
            let is : lookup s (put e.scope hash latest) ≡ some hash =
              ap (λ t. lookup t (put e.scope hash latest)) (sym here)
              ∙ lookup-put_same e.scope hash latest in
            rw same (
              hash,
              check_event-IsHashed library _ _ hash
                  (ap (λ p. check_event library p e.value) (sym was) ∙ checked),
              subst (λ p. Hashed library p (keep (of_scope s) rows) (lookup s final)) is ih,
            )
        | inr other ↦ rw other (
            subst (λ p. Hashed library p (keep (of_scope s) rows) (lookup s final))
              (lookup-put_other s e.scope hash latest other) ih)
      ]

check_views-AtView :
    (views : List MemoryView) (latest : List (String × String))
    → check_views views latest ≡ ok tt
    → (s : String) → AtView views s (lookup s latest)
unfolding check_views lookup
check_views-AtView views [] h s = tt
check_views-AtView views ((t, hash) ∷ latest) h s =
    let (done, here, rest) = >>=-succeeds (check_view (first (latest_of t) views) hash) _ h in
    elim (Bool-cases (t == s)) [
      | inl e ↦ rw e (
          check_view-row (first (latest_of s) views) hash
            (ap (λ u. check_view (first (latest_of u) views) hash) (sym ((eq_iff t s).0 e)) ∙ here))
      | inr e ↦ rw e (check_views-AtView views latest rest s)
    ]

-- The events that the replay of a run reads, in its order.
abbrev pub replayed : (String → String → Bool) → String → Db → List MemoryEvent
replayed like run_id db =
    in_order (keep (λ (e : MemoryEvent). like e.scope (concat run_id ":%")) db.memory_events)

-- Where `str` leaves texts as they are: if a replay returns, then for every scope the events that it read
-- have, in the order of their versions, a dictionary each: that of the first has no previous hash or null,
-- that of each later one the hash of the one before it, and the hash in each is `snapshot_hash` of its run,
-- namespace, version, payload, previous hash, role and stage, none of which is missing; and if there is
-- an event, the scope has a latest view, and its `last_event_hash` is the hash of the last one.
pub replay-Hashed :
    (library : Library)
    → ((s : String) → library.str (Value.text s) ≡ s)
    → (like : String → String → Bool) (run_id : String) (db : Db) (scopes : List String)
    → replay library like run_id db ≡ ok scopes
    → (scope : String)
    → (q : Option String) × Hashed library none (keep (of_scope scope) (replayed like run_id db)) q
      × AtView db.memory_views scope q
unfolding replay lookup
replay-Hashed library str_text like run_id db scopes h scope =
    let (final, read, rest) =
      >>=-succeeds (replay_events library [] (replayed like run_id db)) _ h in
    let (done, checked, last) = >>=-succeeds (check_views db.memory_views final) _ rest in
    (
      lookup scope final,
      replay_events-Hashed library str_text [] (replayed like run_id db) final read scope,
      check_views-AtView db.memory_views final checked scope,
    )
