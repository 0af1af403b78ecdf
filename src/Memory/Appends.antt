-- ===== src/Memory/Appends.antt =====
-- services/memory_service.py: what the end of a write does to the chains and views.
use mathlib.Core.List.{append-nil}
use aicti.Base.{
  ℕ, suc, String, ◌==◌, ◌≡◌, refl, sym, ap, subst, ◌∙◌, eq_refl, eq_iff, true, false, Option, none,
  some, List, [], ◌∷◌, ◌++◌, keep, keep-append, first, ok, err, Result, arith, Bool-cases, inl, inr,
  ◌+◌, length, length-append,
}
use aicti.Value.{Value, Fields, get, is_text, is_finite}
use aicti.Library.{Library}
use aicti.Db.{Db, MemoryEvent, MemoryView}
use aicti.Memory.{
  MemoryError, MemoryWriteResult, value_error, operational_error, checked_hash, check_event,
  recomputed, required, get_or_null, prev_value, is_prev, latest_of,
}
use aicti.Memory.Order.{of_scope}
use aicti.Memory.Chain.{Linked, Linked-append, View, InStep, Consistent}
use aicti.Memory.Service.{
  MemoryWrite, scope_of, put_view, upsert_view, state_of, current_state, event_hash_of,
  event_payload, view_payload, append_event, hashed_payload,
}

is_prev-prev_value : (q : Option String) → is_prev q (prev_value q) ≡ true
unfolding is_prev prev_value
is_prev-prev_value none = refl
is_prev-prev_value (some hash) = eq_refl hash

module _ (library : Library) where
  -- The event that a write adds passes the tests of the replay.
  check_event-event_payload :
      (w : MemoryWrite) (version : ℕ) (q : Option String)
      → is_finite (hashed_payload w version q) ≡ true
      → check_event library q (some (event_payload library w version q))
        ≡ ok (event_hash_of library w version q)
  unfolding check_event event_payload recomputed required get_or_null get event_hash_of is_text
      hashed_payload checked_hash
  check_event-event_payload w version q finite =
      rw (is_prev-prev_value q) (rw (finite) (rw (eq_refl _) refl))

-- The view of a scope after `put_view`.
first-put_same :
    (s : String) (v : Value) (views : List MemoryView)
    → (view : MemoryView) × (first (latest_of s) (put_view s v views) ≡ some view)
      × (view.value ≡ some v)
unfolding put_view latest_of
first-put_same s v [] =
    (record { scope = s; key = "latest"; value = some v }, rw (eq_refl s) refl, refl)
first-put_same s v (view ∷ views) = elim (Bool-cases (latest_of s view)) [
  | inl e ↦ (record view { value = some v }, rw e (rw e refl), refl)
  | inr e ↦ let (found, here, same) = first-put_same s v views in (found, rw e (rw e here), same)
]

latest_other :
    (s t : String) (view : MemoryView)
    → (s == t) ≡ false
    → latest_of s view ≡ true
    → latest_of t view ≡ false
unfolding latest_of
latest_other s t view differ h =
    ground (arith, eq_iff view.scope s, eq_iff view.scope t, eq_iff s t)

latest_set :
    (s : String) (view : MemoryView) (v : Value)
    → latest_of s (record view { value = some v }) ≡ latest_of s view
unfolding latest_of
latest_set s view v = refl

different_scope :
    (s t : String) (v : Value) (key : String)
    → (s == t) ≡ false
    → latest_of t (record { scope = s; key = key; value = some v }) ≡ false
unfolding latest_of
different_scope s t v key differ = rw differ refl

first-put_other :
    (s t : String) (v : Value) (views : List MemoryView)
    → (s == t) ≡ false
    → first (latest_of t) (put_view s v views) ≡ first (latest_of t) views
unfolding put_view
first-put_other s t v [] differ = rw (different_scope s t v "latest" differ) refl
first-put_other s t v (view ∷ views) differ = elim (Bool-cases (latest_of s view)) [
  | inl e ↦ rw e (
      rw (latest_other s t view differ e) (
        rw (latest_other s t (record view { value = some v }) differ (latest_set s view v ∙ e))
          refl))
  | inr e ↦ rw e (elim (Bool-cases (latest_of t view)) [
    | inl f ↦ rw f refl
    | inr f ↦ rw f (first-put_other s t v views differ)
  ])
]

module _ (library : Library) (to_int : Value → Option Value)
    (str_text : (s : String) → library.str (Value.text s) ≡ s)
    (to_int_int : (n : ℕ) → to_int (Value.int n) ≡ some (Value.int n)) where
  pub current_state-View :
      (view : Option MemoryView) (q : Option String) (m : ℕ)
      → View view q m
      → current_state library to_int view ≡ ok (Value.int m, q)
  unfolding current_state state_of
  current_state-View none q m (none_yet, start) = rw (none_yet, start) refl
  current_state-View (some view) q m (hash, payload, last, value, version, recorded) = rw value (
      rw (version, state_of)
        (rw (to_int_int m, state_of) (rw (recorded, state_of) (rw (str_text hash, last) refl))))

err-ok :
    (e : MemoryError) (result : MemoryWriteResult)
    → ¬ (◌≡◌ {A = Result MemoryError MemoryWriteResult} (err e) (ok result))
err-ok e result h = cc

-- A consistent store whose views have the index.
abbrev pub Keyed : Library → Db → Type 0
Keyed library db = Consistent library db × (db.views_are_unique ≡ true)

-- A chain ends at the version that its length gives.
Linked-length :
    (library : Library) (p : Option String) (n : ℕ) (es : List MemoryEvent) (q : Option String)
    (m : ℕ)
    → Linked library p n es q m
    → m ≡ n + length es
Linked-length library p n [] q m (same, at) = omega (arith, at)
Linked-length library p n (e ∷ es) q m (hash, key, checked, rest) =
    omega (arith, Linked-length library (some hash) (suc n) es q m rest)

version_unique :
    (view : MemoryView) (a b : Fields) (m n : ℕ)
    → view.value ≡ some (Value.dict a)
    → view.value ≡ some (Value.dict b)
    → get "version" a ≡ some (Value.int m)
    → get "version" b ≡ some (Value.int n)
    → m ≡ n
version_unique view a b m n f g h k =
    let same : get "version" a ≡ get "version" b = ap version_of (sym f ∙ g) in
    ap number_of (sym h ∙ same ∙ k)
  where
    version_of : Option Value → Option Value
    version_of (some (Value.dict fields)) = get "version" fields
    version_of _ = none

    number_of : Option Value → ℕ
    number_of (some (Value.int n)) = n
    number_of _ = 0

View-unique :
    (view : Option MemoryView) (q p : Option String) (m n : ℕ)
    → View view q m
    → View view p n
    → m ≡ n
View-unique none q p m n (a, b) (c, d) = b ∙ sym d
View-unique (some view) q p m n (h, f, a, b, c, d) (h', f', a', b', c', d') =
    version_unique view f f' m n b b' c c'

pub one_behind :
    (library : Library) (es : List MemoryEvent) (e : MemoryEvent) (q p : Option String) (m n : ℕ)
    (view : Option MemoryView)
    → Linked library none 0 es q m
    → View view q m
    → View view p n
    → ¬ Linked library none 0 (es ++ e ∷ []) p n
one_behind library es e q p m n view linked stands stands' chain =
    let same = View-unique view q p m n stands stands' in
    let long = Linked-length library none 0 (es ++ e ∷ []) p n chain in
    let short = Linked-length library none 0 es q m linked in
    omega (arith, same, long, short, length-append es (e ∷ []))

module _ (library : Library) (uuid4 : ℕ → String) (w : MemoryWrite) (db : Db) (q : Option String)
    (m : ℕ) where
  -- The event that is appended.
  abbrev pub event_of : MemoryEvent
  event_of = record {
    id = uuid4 db.draws;
    scope = scope_of w;
    key = suc m;
    value = some (event_payload library w (suc m) q);
  }

  abbrev pub view_of : Value
  view_of = view_payload library w (suc m) (event_hash_of library w (suc m) q)

  -- What `append_event` does: the hash may raise, and so may the statement on the views.
  append_event-endless :
      is_finite (hashed_payload w (suc m) q) ≡ false
      → append_event library uuid4 w (suc m) q db ≡ (err value_error, db)
  unfolding append_event
  append_event-endless h = rw h refl

  pub append_event-refused :
      is_finite (hashed_payload w (suc m) q) ≡ true
      → db.views_are_unique ≡ false
      → append_event library uuid4 w (suc m) q db ≡ (
        err operational_error,
        record db { memory_events = db.memory_events ++ event_of ∷ []; draws = suc (suc db.draws) },
      )
  unfolding append_event upsert_view
  append_event-refused h k = rw h (rw k refl)

  pub append_event-done :
      is_finite (hashed_payload w (suc m) q) ≡ true
      → db.views_are_unique ≡ true
      → append_event library uuid4 w (suc m) q db ≡ (
        ok (record { version = suc m; event_hash = event_hash_of library w (suc m) q }),
        record db {
          memory_events = db.memory_events ++ event_of ∷ [];
          memory_views = put_view (scope_of w) view_of db.memory_views;
          draws = suc (suc db.draws);
        },
      )
  unfolding append_event upsert_view
  append_event-done h k = rw h (rw k refl)

  pub append_event-views :
      (result : MemoryWriteResult)
      → (append_event library uuid4 w (suc m) q db).0 ≡ ok result
      → (append_event library uuid4 w (suc m) q db).1.memory_views
        ≡ put_view (scope_of w) view_of db.memory_views
  append_event-views result h = elim (Bool-cases (is_finite (hashed_payload w (suc m) q))) [
    | inr endless ↦
        absurd (err-ok value_error result (ap (λ o. o.0) (sym (append_event-endless endless)) ∙ h))
    | inl finite ↦ elim (Bool-cases db.views_are_unique) [
      | inr absent ↦ absurd (
          err-ok operational_error result
            (ap (λ o. o.0) (sym (append_event-refused finite absent)) ∙ h))
      | inl unique ↦ ap (λ o. o.1.memory_views) (append_event-done finite unique)
    ]
  ]

  abbrev appended : Db
  appended = record db {
    memory_events = db.memory_events ++ event_of ∷ [];
    memory_views = put_view (scope_of w) view_of db.memory_views;
    draws = suc (suc db.draws);
  }

  appended_same :
      is_finite (hashed_payload w (suc m) q) ≡ true
      → Linked library none 0 (keep (of_scope (scope_of w)) db.memory_events) q m
      → InStep library (scope_of w) appended
  unfolding view_payload get
  appended_same finite linked =
      let scope = scope_of w in
      let hash = event_hash_of library w (suc m) q in
      let (found, here, same) = first-put_same scope view_of db.memory_views in
      let kept : keep (of_scope scope) (db.memory_events ++ event_of ∷ [])
          ≡ keep (of_scope scope) db.memory_events ++ event_of ∷ [] =
        keep-append (of_scope scope) db.memory_events (event_of ∷ []) ∙ rw (eq_refl scope) refl in
      (
        some hash,
        suc m,
        subst (λ es. Linked library none 0 es (some hash) (suc m)) (sym kept)
            (Linked-append library none 0 (keep (of_scope scope) db.memory_events) q m event_of hash
              linked refl (check_event-event_payload library w (suc m) q finite)),
        subst (λ v. View v (some hash) (suc m)) (sym here) (hash, _, refl, same, refl, refl),
      )

  appended_other :
      (t : String) → (scope_of w == t) ≡ false → InStep library t db → InStep library t appended
  appended_other t differ (p, n, linked, view) = (
    p,
    n,
    subst (λ es. Linked library none 0 es p n)
        (sym (
          keep-append (of_scope t) db.memory_events (event_of ∷ [])
          ∙ rw differ (append-nil (keep (of_scope t) db.memory_events))))
        linked,
    subst (λ v. View v p n) (sym (first-put_other (scope_of w) t _ db.memory_views differ)) view,
  )

  pub append_event-Consistent :
      Keyed library db
      → Linked library none 0 (keep (of_scope (scope_of w)) db.memory_events) q m
      → Keyed library (append_event library uuid4 w (suc m) q db).1
  append_event-Consistent (consistent, unique) linked =
      elim (Bool-cases (is_finite (hashed_payload w (suc m) q))) [
        | inr endless ↦
            subst (λ o. Keyed library o.1) (sym (append_event-endless endless)) (consistent, unique)
        | inl finite ↦
            subst (λ o. Keyed library o.1) (sym (append_event-done finite unique))
              (
                (λ t. elim (Bool-cases (scope_of w == t)) [
                  | inl e ↦
                      subst (λ s. InStep library s appended) ((eq_iff (scope_of w) t).0 e)
                        (appended_same finite linked)
                  | inr e ↦ appended_other t e (consistent t)
                ]),
                unique,
              )
      ]
