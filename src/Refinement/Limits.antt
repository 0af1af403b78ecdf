-- ===== src/Refinement/Limits.antt =====
-- How many refinements are recorded.
use aicti.Base.{
  ℕ, suc, ◌+◌, ◌≤◌, String, ◌==◌, ◌≡◌, refl, ap, ◌∙◌, eq_iff, Bool, true, false, Option, none, some,
  List, [], ◌∷◌, ◌++◌, keep, keep-append, length, length-append, ltb, leb, arith, if◌then◌else◌,
  Bool-cases, inl, inr,
}
use aicti.Db.{Db, RefinementIteration}
use aicti.Refinement.{
  count_for_detection_spec, count_for_rule, is_id, record_query_refinement, record_rule_refinement,
  record_dynamic_refinement, persist_iteration,
}

-- A call of the service.
pub data Attempt : Type 0 where
  query rule dynamic : String → Attempt

abbrev pub attempt : (ℕ → String) → Attempt → Db → Db
attempt uuid4 (query spec) db = (record_query_refinement uuid4 spec db).1
attempt uuid4 (rule r) db = (record_rule_refinement uuid4 r db).1
attempt uuid4 (dynamic r) db = (record_dynamic_refinement uuid4 r db).1

abbrev pub attempts : (ℕ → String) → List Attempt → Db → Db
attempts uuid4 [] db = db
attempts uuid4 (a ∷ calls) db = attempts uuid4 calls (attempt uuid4 a db)

-- Whether a call is about the specification, and about the rule.
abbrev pub spec_of : String → Attempt → Bool
spec_of spec (query s) = s == spec
spec_of spec (rule r) = false
spec_of spec (dynamic r) = false

abbrev pub rule_of : String → Attempt → Bool
rule_of id (query s) = false
rule_of id (rule r) = r == id
rule_of id (dynamic r) = r == id

-- How many of the calls the test holds of.
abbrev pub number : (Attempt → Bool) → List Attempt → ℕ
number p [] = 0
number p (a ∷ calls) = let n = number p calls in if p a then suc n else n

abbrev pub min : ℕ → ℕ → ℕ
min a b = if leb a b then a else b

length-keep_last :
    {A : Type 0} (p : A → Bool) (xs : List A) (a : A)
    → length (keep p (xs ++ a ∷ []))
      ≡ (if p a then suc (length (keep p xs)) else length (keep p xs))
length-keep_last p xs a = elim (Bool-cases (p a)) [
  | inl e ↦
      ap length (keep-append p xs (a ∷ []))
      ∙ rw e (length-append (keep p xs) (a ∷ []) ∙ omega arith)
  | inr e ↦
      ap length (keep-append p xs (a ∷ [])) ∙ rw e (length-append (keep p xs) [] ∙ omega arith)
]

module _ (uuid4 : ℕ → String) (s r : Option String) (db : Db) where
  spec_count :
      (spec : String)
      → count_for_detection_spec spec (persist_iteration uuid4 s r db).1 ≡ (
          if is_id spec s
          then suc (count_for_detection_spec spec db)
          else count_for_detection_spec spec db)
  unfolding count_for_detection_spec persist_iteration
  spec_count spec =
      length-keep_last (λ (i : RefinementIteration). is_id spec i.detection_spec_id)
        db.refinement_iterations _

  rule_count :
      (id : String)
      → count_for_rule id (persist_iteration uuid4 s r db).1
        ≡ (if is_id id r then suc (count_for_rule id db) else count_for_rule id db)
  unfolding count_for_rule persist_iteration
  rule_count id =
      length-keep_last (λ (i : RefinementIteration). is_id id i.rule_id) db.refinement_iterations _

-- What one more call makes of a count.
abbrev next : Bool → ℕ → ℕ → ℕ
next about limit count = if about then min (suc count) limit else count

-- The count after a call whose own count is `own`: it was let through below the limit, and not above.
next_granted :
    (about : Bool) (limit own count : ℕ)
    → ltb own limit ≡ true
    → (about ≡ true → own ≡ count)
    → (if about then suc count else count) ≡ next about limit count
next_granted true limit own count h same = ground (arith, h, same refl)
next_granted false limit own count h same = refl

next_refused :
    (about : Bool) (limit own count : ℕ)
    → ltb own limit ≡ false
    → (about ≡ true → own ≡ count)
    → count ≤ limit
    → count ≡ next about limit count
next_refused true limit own count h same below = ground (arith, h, same refl, below)
next_refused false limit own count h same below = refl

capped_step :
    (about : Bool) (limit count n : ℕ)
    → count ≤ limit
    → min (next about limit count + n) limit ≡ min (count + (if about then suc n else n)) limit
capped_step true limit count n h = ground (arith, h)
capped_step false limit count n h = refl

next_bound : (about : Bool) (limit count : ℕ) → count ≤ limit → next about limit count ≤ limit
next_bound true limit count h = ground arith
next_bound false limit count h = h

module _ (uuid4 : ℕ → String) (db : Db) (spec id : String) where
  same_spec :
      (s : String)
      → (s == spec) ≡ true
      → count_for_detection_spec s db ≡ count_for_detection_spec spec db
  same_spec s e = ap (λ t. count_for_detection_spec t db) ((eq_iff s spec).0 e)

  same_rule : (r : String) → (r == id) ≡ true → count_for_rule r db ≡ count_for_rule id db
  same_rule r e = ap (λ t. count_for_rule t db) ((eq_iff r id).0 e)

  spec_count-attempt :
      (a : Attempt)
      → count_for_detection_spec spec db ≤ 3
      → count_for_detection_spec spec (attempt uuid4 a db)
        ≡ next (spec_of spec a) 3 (count_for_detection_spec spec db)
  unfolding record_query_refinement record_rule_refinement record_dynamic_refinement
  spec_count-attempt (query s) h = elim (Bool-cases (ltb (count_for_detection_spec s db) 3)) [
    | inl e ↦
        rw (e, attempt)
          (spec_count uuid4 (some s) none db spec ∙ next_granted (s == spec) 3 _ _ e (same_spec s))
    | inr e ↦ rw (e, attempt) (next_refused (s == spec) 3 _ _ e (same_spec s) h)
  ]
  spec_count-attempt (rule r) h = elim (Bool-cases (ltb (count_for_rule r db) 2)) [
    | inl e ↦ rw (e, attempt) (spec_count uuid4 none (some r) db spec)
    | inr e ↦ rw (e, attempt) refl
  ]
  spec_count-attempt (dynamic r) h = elim (Bool-cases (ltb (count_for_rule r db) 2)) [
    | inl e ↦ rw (e, attempt) (spec_count uuid4 none (some r) db spec)
    | inr e ↦ rw (e, attempt) refl
  ]

  rule_count-attempt :
      (a : Attempt)
      → count_for_rule id db ≤ 2
      → count_for_rule id (attempt uuid4 a db) ≡ next (rule_of id a) 2 (count_for_rule id db)
  unfolding record_query_refinement record_rule_refinement record_dynamic_refinement
  rule_count-attempt (query s) h = elim (Bool-cases (ltb (count_for_detection_spec s db) 3)) [
    | inl e ↦ rw (e, attempt) (rule_count uuid4 (some s) none db id)
    | inr e ↦ rw (e, attempt) refl
  ]
  rule_count-attempt (rule r) h = elim (Bool-cases (ltb (count_for_rule r db) 2)) [
    | inl e ↦
        rw (e, attempt)
          (rule_count uuid4 none (some r) db id ∙ next_granted (r == id) 2 _ _ e (same_rule r))
    | inr e ↦ rw (e, attempt) (next_refused (r == id) 2 _ _ e (same_rule r) h)
  ]
  rule_count-attempt (dynamic r) h = elim (Bool-cases (ltb (count_for_rule r db) 2)) [
    | inl e ↦
        rw (e, attempt)
          (rule_count uuid4 none (some r) db id ∙ next_granted (r == id) 2 _ _ e (same_rule r))
    | inr e ↦ rw (e, attempt) (next_refused (r == id) 2 _ _ e (same_rule r) h)
  ]

-- Starting from counts within the limits, 3 for a specification and 2 for a rule: after any sequence of
-- calls that record query, rule and dynamic refinements, those that raise included, exactly as many
-- iterations are recorded for a specification as there were, and one for each query refinement of it, but
-- no more than 3; and for a rule as there were, and one for each rule or dynamic refinement of
-- it, but no more than 2.
pub attempts-count :
    (uuid4 : ℕ → String) (calls : List Attempt) (db : Db) (spec id : String)
    → count_for_detection_spec spec db ≤ 3
    → count_for_rule id db ≤ 2
    → (count_for_detection_spec spec (attempts uuid4 calls db)
        ≡ min (count_for_detection_spec spec db + number (spec_of spec) calls) 3)
      × (count_for_rule id (attempts uuid4 calls db)
          ≡ min (count_for_rule id db + number (rule_of id) calls) 2)
attempts-count uuid4 [] db spec id h k = (ground (arith, h), ground (arith, k))
attempts-count uuid4 (a ∷ calls) db spec id h k =
    let s = spec_count-attempt uuid4 db spec id a h in
    let r = rule_count-attempt uuid4 db spec id a k in
    let (specs, rules) =
      attempts-count uuid4 calls (attempt uuid4 a db) spec id
        (rw s (next_bound (spec_of spec a) 3 _ h)) (rw r (next_bound (rule_of id a) 2 _ k)) in
    (
      specs
          ∙ ap (λ n. min (n + number (spec_of spec) calls) 3) s
          ∙ capped_step (spec_of spec a) 3 _ (number (spec_of spec) calls) h,
      rules
          ∙ ap (λ n. min (n + number (rule_of id) calls) 2) r
          ∙ capped_step (rule_of id a) 2 _ (number (rule_of id) calls) k,
    )
