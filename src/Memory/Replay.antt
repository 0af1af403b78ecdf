-- ===== src/Memory/Replay.antt =====
-- What a replay finds in a consistent store.
use aicti.Base.{
  sorted_texts, ℕ, suc, String, concat, ◌==◌, ◌≡◌, refl, sym, ap, subst, ◌∙◌, eq_refl, eq_iff, Bool,
  true, false, ◌&&◌, Option, none, some, List, [], ◌∷◌, keep, first, map, ok, ok-injective, arith,
  if◌then◌else◌, Bool-cases, inl, inr, and_true, and_intro,
}
use aicti.Value.{Value, is_text}
use aicti.Library.{Library}
use aicti.Db.{Db, MemoryEvent, MemoryView}
use aicti.Memory.{
  map_some, check_event, check_view, check_views, expected_prev, lookup, put, replay_events, replay,
  in_order, latest_of,
}
use aicti.Memory.Order.{of_scope, ascending, keep-in_order}
use aicti.Memory.Chain.{Linked, Linked-ascending, View, Consistent}

pub lookup-put_same :
    (s h : String) (latest : List (String × String)) → lookup s (put s h latest) ≡ some h
unfolding lookup put
lookup-put_same s h [] = rw (eq_refl s) refl
lookup-put_same s h ((t, g) ∷ latest) = elim (Bool-cases (t == s)) [
  | inl e ↦ rw e (rw e refl)
  | inr e ↦ rw e (rw e (lookup-put_same s h latest))
]

pub lookup-put_other :
    (s t h : String) (latest : List (String × String))
    → (t == s) ≡ false
    → lookup s (put t h latest) ≡ lookup s latest
unfolding lookup put
lookup-put_other s t h [] differ = rw differ refl
lookup-put_other s t h ((u, g) ∷ latest) differ = elim (Bool-cases (u == t)) [
  | inl e ↦
      let apart : (u == s) ≡ false = ap (λ v. v == s) ((eq_iff u t).0 e) ∙ differ in
      rw e (rw apart refl)
  | inr e ↦ rw e (elim (Bool-cases (u == s)) [
    | inl f ↦ rw f refl
    | inr f ↦ rw f (lookup-put_other s t h latest differ)
  ])
]

abbrev is_none : Option String → Bool
is_none none = true
is_none (some hash) = false

-- Each scope stands once.
abbrev unique : List (String × String) → Bool
unique [] = true
unique ((s, h) ∷ latest) = is_none (lookup s latest) && unique latest

unique-put :
    (s h : String) (latest : List (String × String))
    → unique latest ≡ true
    → unique (put s h latest) ≡ true
unfolding put lookup
unique-put s h [] u = refl
unique-put s h ((t, g) ∷ latest) u = elim (Bool-cases (t == s)) [
  | inl e ↦ rw e u
  | inr e ↦
      let (alone, rest) = and_true (is_none (lookup t latest)) (unique latest) u in
      let apart : (s == t) ≡ false = ground (arith, eq_iff s t, eq_iff t s) in
      rw e (
        and_intro (ap is_none (lookup-put_other t s h latest apart) ∙ alone)
          (unique-put s h latest rest))
]

module _ (library : Library) (str_text : (s : String) → library.str (Value.text s) ≡ s) where
  pub expected_prev-lookup :
      (s : String) (latest : List (String × String))
      → expected_prev library s latest ≡ lookup s latest
  unfolding expected_prev
  expected_prev-lookup s latest = same_hash (lookup s latest)
    where
      same_hash : (o : Option String) → map_some (λ hash. library.str (Value.text hash)) o ≡ o
      same_hash none = refl
      same_hash (some hash) = ap some (str_text hash)

module _ (library : Library) where
  -- The events of the scope that are left follow on the hash found so far, and end at a good one.
  abbrev Follows :
      (String → Option String → Type 0)
      → List (String × String)
      → List MemoryEvent
      → String
      → Type 0
  Follows Good latest rows s =
      (n : ℕ) × (q : Option String) × (m : ℕ) × Linked library (lookup s latest) n
        (keep (of_scope s) rows) q m
      × Good s q

  follows_next :
      (Good : String → Option String → Type 0) (latest : List (String × String)) (e : MemoryEvent)
      (rows : List MemoryEvent) (hash : String)
      → check_event library (lookup e.scope latest) e.value ≡ ok hash
      → ((s : String) → Follows Good latest (e ∷ rows) s)
      → (s : String) → Follows Good (put e.scope hash latest) rows s
  follows_next Good latest e rows hash checked follows s = elim (Bool-cases (of_scope s e)) [
    | inl same ↦
        let (n, q, m, linked, good) = follows s in
        let here : e.scope ≡ s = (eq_iff e.scope s).0 same in
        let (found, key, found_checked, rest) =
          subst (λ es. Linked library (lookup s latest) n es q m)
            (ap (λ b. if b then e ∷ keep (of_scope s) rows else keep (of_scope s) rows) same)
            linked in
        let equal : found ≡ hash = ok-injective (
          sym found_checked
          ∙ ap (λ t. check_event library (lookup t latest) e.value) (sym here)
          ∙ checked) in
        (
          suc n,
          q,
          m,
          subst (λ p. Linked library p (suc n) (keep (of_scope s) rows) q m)
              (ap some equal
                ∙ sym (
                    ap (λ t. lookup t (put e.scope hash latest)) (sym here)
                    ∙ lookup-put_same e.scope hash latest))
              rest,
          good,
        )
    | inr other ↦
        let (n, q, m, linked, good) = follows s in
        (
          n,
          q,
          m,
          subst (λ p. Linked library p n (keep (of_scope s) rows) q m)
              (sym (lookup-put_other s e.scope hash latest other))
              (subst (λ es. Linked library (lookup s latest) n es q m)
                (ap (λ b. if b then e ∷ keep (of_scope s) rows else keep (of_scope s) rows) other)
                linked),
          good,
        )
  ]

  checked_first :
      (Good : String → Option String → Type 0) (latest : List (String × String)) (e : MemoryEvent)
      (rows : List MemoryEvent)
      → Follows Good latest (e ∷ rows) e.scope
      → (hash : String) × (check_event library (lookup e.scope latest) e.value ≡ ok hash)
  checked_first Good latest e rows (n, q, m, linked, good) =
      let (hash, key, checked, rest) =
        subst (λ es. Linked library (lookup e.scope latest) n es q m)
          (ap (λ b. if b then e ∷ keep (of_scope e.scope) rows else keep (of_scope e.scope) rows)
            (eq_refl e.scope))
          linked in
      (hash, checked)

module _ (library : Library) (str_text : (s : String) → library.str (Value.text s) ≡ s) where
  -- The loop over the events gets to the end, and the hashes it has then are good ones.
  replay_events-Follows :
      (Good : String → Option String → Type 0) (latest : List (String × String))
      (rows : List MemoryEvent)
      → unique latest ≡ true
      → ((s : String) → Follows library Good latest rows s)
      → (final : List (String × String)) × (replay_events library latest rows ≡ ok final)
        × (unique final ≡ true)
        × ((s : String) → Good s (lookup s final))
  unfolding replay_events
  replay_events-Follows Good latest [] u follows = (
    latest,
    refl,
    u,
    λ s. let (n, q, m, (same, at), good) = follows s in subst (Good s) (sym same) good,
  )
  replay_events-Follows Good latest (e ∷ rows) u follows =
      let (hash, checked) = checked_first library Good latest e rows (follows e.scope) in
      let (final, done, once, good) =
        replay_events-Follows Good (put e.scope hash latest) rows (unique-put e.scope hash latest u)
          (follows_next library Good latest e rows hash checked follows) in
      (
        final,
        rw (expected_prev-lookup library str_text e.scope latest) (rw checked done),
        once,
        good,
      )

-- A hash that the scope's view has too.
abbrev InView : List MemoryView → String → Option String → Type 0
InView views s none = Unit {0}
InView views s (some hash) = (m : ℕ) × View (first (latest_of s) views) (some hash) m

check_view-View :
    (view : Option MemoryView) (hash : String) (m : ℕ)
    → View view (some hash) m
    → check_view view hash ≡ ok tt
unfolding check_view is_text
check_view-View none hash m (missing, start) = cc
check_view-View (some view) hash m (recorded, payload, same, value, version, last) =
    let equal : hash ≡ recorded = cc in rw value (rw last (rw equal (rw (eq_refl recorded) refl)))

later_entry :
    (s h t g : String) (latest : List (String × String))
    → is_none (lookup s latest) ≡ true
    → lookup t latest ≡ some g
    → lookup t ((s, h) ∷ latest) ≡ some g
unfolding lookup
later_entry s h t g latest alone found = elim (Bool-cases (s == t)) [
  | inl e ↦
      let absent : is_none (some g) ≡ true =
        ap is_none (sym found ∙ ap (λ u. lookup u latest) (sym ((eq_iff s t).0 e))) ∙ alone in
      cc
  | inr e ↦ rw e found
]

check_views-InView :
    (views : List MemoryView) (latest : List (String × String))
    → unique latest ≡ true
    → ((s h : String) → lookup s latest ≡ some h → InView views s (some h))
    → check_views views latest ≡ ok tt
unfolding check_views lookup
check_views-InView views [] u good = refl
check_views-InView views ((s, h) ∷ latest) u good =
    let (alone, rest) = and_true (is_none (lookup s latest)) (unique latest) u in
    let (m, view) = good s h (rw (eq_refl s) refl) in
    rw (check_view-View _ h m view) (
      check_views-InView views latest rest
        (λ t g found. good t g (later_entry s h t g latest alone found)))

keep-keep_in :
    (p : String → Bool) (s : String) (es : List MemoryEvent)
    → p s ≡ true
    → keep (of_scope s) (keep (λ (e : MemoryEvent). p e.scope) es) ≡ keep (of_scope s) es
keep-keep_in p s [] h = refl
keep-keep_in p s (e ∷ es) h = elim (Bool-cases (of_scope s e)) [
  | inl same ↦
      let matched : p e.scope ≡ true = ap p ((eq_iff e.scope s).0 same) ∙ h in
      rw matched (rw same (ap (λ l. e ∷ l) (keep-keep_in p s es h)))
  | inr other ↦ elim (Bool-cases (p e.scope)) [
    | inl f ↦ rw f (rw other (keep-keep_in p s es h))
    | inr f ↦ rw f (rw other (keep-keep_in p s es h))
  ]
]

keep-keep_out :
    (p : String → Bool) (s : String) (es : List MemoryEvent)
    → p s ≡ false
    → keep (of_scope s) (keep (λ (e : MemoryEvent). p e.scope) es) ≡ []
keep-keep_out p s [] h = refl
keep-keep_out p s (e ∷ es) h = elim (Bool-cases (p e.scope)) [
  | inr f ↦ rw f (keep-keep_out p s es h)
  | inl f ↦
      let apart : of_scope s e ≡ false = elim (Bool-cases (of_scope s e)) [
        | inr other ↦ other
        | inl same ↦ let clash : true ≡ false = sym f ∙ ap p ((eq_iff e.scope s).0 same) ∙ h in cc
      ] in
      rw f (rw apart (keep-keep_out p s es h))
]

module _ (library : Library) (str_text : (s : String) → library.str (Value.text s) ≡ s)
    (like : String → String → Bool) (run_id : String) (db : Db)
    (consistent : Consistent library db) where
  abbrev selected : List MemoryEvent
  selected = keep (λ (e : MemoryEvent). like e.scope (concat run_id ":%")) db.memory_events

  abbrev Viewed : String → Option String → Type 0
  Viewed s q = (hash : String) → q ≡ some hash → InView db.memory_views s (some hash)

  start : (s : String) → Follows library Viewed [] (in_order selected) s
  unfolding lookup
  start s = elim (Bool-cases (like s (concat run_id ":%"))) [
    | inl e ↦
        let (q, m, linked, view) = consistent s in
        let whole = keep-keep_in (λ t. like t (concat run_id ":%")) s db.memory_events e in
        let same : keep (of_scope s) (in_order selected) ≡ keep (of_scope s) db.memory_events =
          keep-in_order s selected
            (ap ascending whole ∙ Linked-ascending library none 0 _ q m linked)
          ∙ whole in
        (
          0,
          q,
          m,
          subst (λ es. Linked library none 0 es q m) (sym same) linked,
          λ hash h. (m, subst (λ r. View (first (latest_of s) db.memory_views) r m) h view),
        )
    | inr e ↦
        let nothing = keep-keep_out (λ t. like t (concat run_id ":%")) s db.memory_events e in
        let same : keep (of_scope s) (in_order selected) ≡ [] =
          keep-in_order s selected (ap ascending nothing) ∙ nothing in
        (
          0,
          none,
          0,
          subst (λ es. Linked library none 0 es none 0) (sym same) (refl, refl),
          λ hash h. cc,
        )
  ]

  pub replay-succeeds : (scopes : List String) × (replay library like run_id db ≡ ok scopes)
  unfolding replay
  replay-succeeds =
      let (final, done, once, good) =
        replay_events-Follows library str_text Viewed [] (in_order selected) refl start in
      (
        sorted_texts (map (λ (p : String × String). p.0) final),
        rw done
            (rw (check_views-InView db.memory_views final once (λ s h found. good s h found)) refl),
      )
