-- ===== src/Memory/Writes.antt =====
-- services/memory_service.py: the course of a write, with and without a unique index on the views.
use aicti.Base.{
  ℕ, suc, String, ◌≡◌, refl, sym, ap, subst, ◌∙◌, eq_refl, true, false, Option, none, some, [], ◌∷◌,
  ◌++◌, keep, keep-append, first, err, if◌then◌else◌, Bool-cases, inl, inr, ◌=?◌, =?_iff,
}
use aicti.Value.{Value, is_finite}
use aicti.Library.{Library}
use aicti.Db.{Db}
use aicti.Memory.{access_denied, version_conflict, operational_error, latest_of}
use aicti.Memory.Order.{of_scope}
use aicti.Memory.Chain.{Linked, View, InStep, Consistent}
use aicti.Memory.Service.{
  MemoryWrite, Policy, scope_of, is_version, append_event, write, hashed_payload,
}
use aicti.Memory.Appends.{
  Keyed, current_state-View, append_event-refused, append_event-Consistent, one_behind, event_of,
}

module _ (library : Library) (to_int : Value → Option Value)
    (str_text : (s : String) → library.str (Value.text s) ≡ s)
    (to_int_int : (n : ℕ) → to_int (Value.int n) ≡ some (Value.int n)) (policy : Policy)
    (uuid4 : ℕ → String) (w : MemoryWrite) (db : Db) where
  -- The course of a write on a scope whose view stands at the version `m` with the hash `q`.
  write-InStep :
      (q : Option String) (m : ℕ)
      → View (first (latest_of (scope_of w)) db.memory_views) q m
      → write library to_int policy uuid4 w db ≡ (
          if policy w.role w.namespace w.operation w.stage "active"
          then (if m =? w.expected_version
              then append_event library uuid4 w (suc m) q db
              else (err version_conflict, db))
          else (err access_denied, db))
  unfolding write is_version
  write-InStep q m view =
      elim (Bool-cases (policy w.role w.namespace w.operation w.stage "active")) [
        | inr refused ↦ rw refused refl
        | inl granted ↦ rw granted (
            rw (current_state-View library to_int str_text to_int_int _ q m view)
              (elim (Bool-cases (m =? w.expected_version)) [
                | inr other ↦ rw other refl
                | inl same ↦ rw same (
                    ap (λ n. append_event library uuid4 w (suc n) q db)
                      (sym ((=?_iff m w.expected_version).0 same)))
              ]))
      ]

  pub write-Keyed : Keyed library db → Keyed library (write library to_int policy uuid4 w db).1
  write-Keyed (consistent, unique) =
      let (q, m, linked, view) = consistent (scope_of w) in
      subst (λ outcome. Keyed library outcome.1) (sym (write-InStep q m view))
        (elim (Bool-cases (policy w.role w.namespace w.operation w.stage "active")) [
          | inr refused ↦ rw refused (consistent, unique)
          | inl granted ↦ rw granted (elim (Bool-cases (m =? w.expected_version)) [
            | inr other ↦ rw other (consistent, unique)
            | inl same ↦
                rw same (append_event-Consistent library uuid4 w db q m (consistent, unique) linked)
          ])
        ])

  -- Where `str` leaves texts and `int` numbers as they are, and a unique index on scope and key lets the
  -- statement on the views run: if each scope's events have the versions 1, 2, and so on, pass the tests
  -- of the replay one after the other and end where the scope's view stands, this is so after a write
  -- too, whatever the policy is and whether the write returns or raises.
  pub write-Consistent :
      db.views_are_unique ≡ true
      → Consistent library db
      → Consistent library (write library to_int policy uuid4 w db).1
  write-Consistent unique consistent = (write-Keyed (consistent, unique)).0

  -- Where `str` leaves texts and `int` numbers as they are, and no unique index is on the scope and key of
  -- the views: a write to a scope whose events and view are in step at the version `m`, which the policy
  -- grants, expects the version `m` and holds no NaN or infinity, raises the database's error after it
  -- has appended the event of the version `m + 1`; the views are as they were, and the events of the
  -- scope are in step with its view no more.
  pub write-append_event :
      db.views_are_unique ≡ false
      → (q : Option String) (m : ℕ)
      → Linked library none 0 (keep (of_scope (scope_of w)) db.memory_events) q m
      → View (first (latest_of (scope_of w)) db.memory_views) q m
      → policy w.role w.namespace w.operation w.stage "active" ≡ true
      → w.expected_version ≡ m
      → is_finite (hashed_payload w (suc m) q) ≡ true
      → (let (r, db') = write library to_int policy uuid4 w db in
          (r ≡ err operational_error)
          × (db'.memory_events ≡ db.memory_events ++ event_of library uuid4 w db q m ∷ [])
          × (db'.memory_views ≡ db.memory_views)
          × (¬ InStep library (scope_of w) db'))
  write-append_event absent q m linked view granted expected finite =
      let done : write library to_int policy uuid4 w db ≡ (
        err operational_error,
        record db {
          memory_events = db.memory_events ++ event_of library uuid4 w db q m ∷ [];
          draws = suc (suc db.draws);
        },
      ) =
        write-InStep q m view
        ∙ rw granted (
            rw ((=?_iff m w.expected_version).1 (sym expected))
              (append_event-refused library uuid4 w db q m finite absent)) in
      (
        ap (λ o. o.0) done,
        ap (λ o. o.1.memory_events) done,
        ap (λ o. o.1.memory_views) done,
        subst (λ o. ¬ InStep library (scope_of w) o.1) (sym done)
            (λ (p, n, chain, stands).
              one_behind library (keep (of_scope (scope_of w)) db.memory_events)
                (event_of library uuid4 w db q m) q p m n _ linked view stands
                (subst (λ es. Linked library none 0 es p n)
                  (keep-append (of_scope (scope_of w)) db.memory_events
                      (event_of library uuid4 w db q m ∷ [])
                    ∙ rw (eq_refl (scope_of w)) refl)
                  chain)),
      )
