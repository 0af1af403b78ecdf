-- ===== src/Memory/Chain.antt =====
-- The chain of hashes of a scope, and what a write adds to it.
use aicti.Base.{
  ℕ, suc, ◌≤◌, String, ◌≡◌, refl, sym, ap, ◌∙◌, true, Option, none, some, List, [], ◌∷◌, ◌++◌, keep,
  all, first, ltb, ok, arith, and_intro,
}
use aicti.Value.{Value, Fields, get}
use aicti.Library.{Library}
use aicti.Db.{Db, MemoryEvent, MemoryView}
use aicti.Memory.{check_event, latest_of}
use aicti.Memory.Order.{ascending, of_scope}

-- The events `es` follow on the version `n` with the hash `p`, and end at the version `m` with the
-- hash `q`: each has the next version and passes the tests of the replay.
abbrev pub Linked : Library → Option String → ℕ → List MemoryEvent → Option String → ℕ → Type 0
Linked library p n [] q m = (p ≡ q) × (n ≡ m)
Linked library p n (e ∷ es) q m =
    (hash : String) × (e.key ≡ suc n)
    × (check_event library p e.value ≡ ok hash)
    × Linked library (some hash) (suc n) es q m

pub Linked-append :
    (library : Library) (p : Option String) (n : ℕ) (es : List MemoryEvent) (q : Option String)
    (m : ℕ) (e : MemoryEvent) (hash : String)
    → Linked library p n es q m
    → e.key ≡ suc m
    → check_event library q e.value ≡ ok hash
    → Linked library p n (es ++ e ∷ []) (some hash) (suc m)
Linked-append library p n [] q m e hash (same, at) k h =
    (hash, k ∙ ap suc (sym at), ap (λ r. check_event library r e.value) same ∙ h, (refl, ap suc at))
Linked-append library p n (f ∷ es) q m e hash (g, key, checked, rest) k h =
    (g, key, checked, Linked-append library (some g) (suc n) es q m e hash rest k h)

above :
    (library : Library) (p : Option String) (n k : ℕ) (es : List MemoryEvent) (q : Option String)
    (m : ℕ)
    → k ≤ n
    → Linked library p n es q m
    → all (λ (f : MemoryEvent). ltb k f.key) es ≡ true
above library p n k [] q m h linked = refl
above library p n k (e ∷ es) q m h (hash, key, checked, rest) =
    and_intro (ground (arith, key)) (above library (some hash) (suc n) k es q m (omega arith) rest)

pub Linked-ascending :
    (library : Library) (p : Option String) (n : ℕ) (es : List MemoryEvent) (q : Option String)
    (m : ℕ)
    → Linked library p n es q m
    → ascending es ≡ true
Linked-ascending library p n [] q m linked = refl
Linked-ascending library p n (e ∷ es) q m (hash, key, checked, rest) =
    and_intro (rw key (above library (some hash) (suc n) (suc n) es q m (omega arith) rest))
      (Linked-ascending library (some hash) (suc n) es q m rest)

-- The view of a scope that stands at the version `m` with the hash `q`.
abbrev pub View : Option MemoryView → Option String → ℕ → Type 0
View none q m = (q ≡ none) × (m ≡ 0)
View (some view) q m =
    (hash : String) × (payload : Fields) × (q ≡ some hash)
    × (view.value ≡ some (Value.dict payload))
    × (get "version" payload ≡ some (Value.int m))
    × (get "last_event_hash" payload ≡ some (Value.text hash))

-- The chain of the scope and its view agree.
abbrev pub InStep : Library → String → Db → Type 0
InStep library scope db =
    (q : Option String) × (m : ℕ) × Linked library none 0 (keep (of_scope scope) db.memory_events) q
      m
    × View (first (latest_of scope) db.memory_views) q m

abbrev pub Consistent : Library → Db → Type 0
Consistent library db = (scope : String) → InStep library scope db
