-- ===== src/Memory/Sessions.antt =====
-- A store that nothing but the memory service has written to.
use aicti.Base.{
  ℕ, String, ◌≡◌, refl, Bool, true, Option, none, some, List, [], ◌∷◌, keep, first, ok, subst, sym,
}
use aicti.Value.{Value}
use aicti.Library.{Library}
use aicti.Db.{Db}
use aicti.Memory.{replay, latest_of}
use aicti.Memory.Order.{of_scope}
use aicti.Memory.Chain.{Linked, View}
use aicti.Memory.Service.{MemoryWrite, Policy, write}
use aicti.Memory.Writes.{write-Keyed}
use aicti.Memory.Appends.{Keyed}
use aicti.Memory.Replay.{replay-succeeds}

-- The database after the writes, those that raise included.
abbrev pub after_writes :
    Library → (Value → Option Value) → Policy → (ℕ → String) → List MemoryWrite → Db → Db
after_writes library to_int policy uuid4 [] db = db
after_writes library to_int policy uuid4 (w ∷ ws) db =
    after_writes library to_int policy uuid4 ws (write library to_int policy uuid4 w db).1

module _ (library : Library) (to_int : Value → Option Value)
    (str_text : (s : String) → library.str (Value.text s) ≡ s)
    (to_int_int : (n : ℕ) → to_int (Value.int n) ≡ some (Value.int n)) (policy : Policy)
    (uuid4 : ℕ → String) where
  after_writes-Keyed :
      (ws : List MemoryWrite) (db : Db)
      → Keyed library db
      → Keyed library (after_writes library to_int policy uuid4 ws db)
  after_writes-Keyed [] db keyed = keyed
  after_writes-Keyed (w ∷ ws) db keyed =
      after_writes-Keyed ws _
        (write-Keyed library to_int str_text to_int_int policy uuid4 w db keyed)

  -- Where `str` leaves texts and `int` numbers as they are: from a database with no memory events, no
  -- views and a unique index on the scope and key of the views, and after any sequence of writes, those
  -- that raise included, the replay of every run raises nothing, whatever the policy is and whatever
  -- scopes `LIKE` selects.
  pub replay-after_writes :
      (ws : List MemoryWrite) (like : String → String → Bool) (run_id : String) (db : Db)
      → db.views_are_unique ≡ true
      → db.memory_events ≡ []
      → db.memory_views ≡ []
      → (scopes : List String) × (replay library like run_id
            (after_writes library to_int policy uuid4 ws db)
          ≡ ok scopes)
  replay-after_writes ws like run_id db unique no_events no_views =
      replay-succeeds library str_text like run_id (after_writes library to_int policy uuid4 ws db)
        (after_writes-Keyed ws db (
          (λ s. (
            none,
            0,
            subst (λ es. Linked library none 0 (keep (of_scope s) es) none 0) (sym no_events)
                (refl, refl),
            subst (λ views. View (first (latest_of s) views) none 0) (sym no_views) (refl, refl),
          )),
          unique,
        )).0
