-- ===== src/Base/Lists.antt =====
-- Lists measured by native numbers, tested by Boolean predicates, and searched by a decision.
use Prim.Native.Nat.{ℕ, suc, ◌+◌, ◌≤◌}
use mathlib.Core.Path.{◌≡◌, refl, sym, ap, subst, ◌∙◌}
use mathlib.Core.Logic.{◌⊎◌, inl, inr}
use mathlib.Core.Bool.{Bool, true, false, ◌&&◌, ◌||◌}
use mathlib.Core.Option.{Option, none, some}
use mathlib.Core.List.{List, [], ◌∷◌, ◌++◌, Memᴰ}
use mathlib.Core.List.Memᴰ
use native.Mathlib.Omega.{arith}
use aicti.Base.Tests.{if◌then◌else◌, Bool-cases}

module _ {ℓ} {A : Type ℓ} where
  abbrev pub length : List A → ℕ
  length [] = 0
  length (x ∷ xs) = suc (length xs)

  -- Python's `any`, `all`, a comprehension with a condition, and `next(..., None)`.
  abbrev pub any : (A → Bool) → List A → Bool
  any p [] = false
  any p (x ∷ xs) = p x || any p xs

  abbrev pub all : (A → Bool) → List A → Bool
  all p [] = true
  all p (x ∷ xs) = p x && all p xs

  abbrev pub keep : (A → Bool) → List A → List A
  keep p [] = []
  keep p (x ∷ xs) = let rest = keep p xs in if p x then x ∷ rest else rest

  abbrev pub first : (A → Bool) → List A → Option A
  first p [] = none
  first p (x ∷ xs) = if p x then some x else first p xs

  abbrev pub is_empty : List A → Bool
  is_empty [] = true
  is_empty (x ∷ xs) = false

  -- Membership by an equality test of the program.
  abbrev pub elem : (A → A → Bool) → A → List A → Bool
  elem eq a = any (eq a)

  pub length-append : (xs ys : List A) → length (xs ++ ys) ≡ length xs + length ys
  length-append [] ys = omega arith
  length-append (x ∷ xs) ys = omega (arith, length-append xs ys)

  pub any-append : (p : A → Bool) (xs ys : List A) → any p (xs ++ ys) ≡ (any p xs || any p ys)
  any-append p [] ys = refl
  any-append p (x ∷ xs) ys = ground (arith, any-append p xs ys)

  pub all_ext : (p q : A → Bool) (xs : List A) → ((a : A) → p a ≡ q a) → all p xs ≡ all q xs
  all_ext p q [] h = refl
  all_ext p q (x ∷ xs) h = ground (arith, h x, all_ext p q xs h)

  pub first-append :
      (p : A → Bool) (xs : List A) (a : A)
      → first p xs ≡ none
      → p a ≡ true
      → first p (xs ++ a ∷ []) ≡ some a
  first-append p [] a e h = ground arith
  first-append p (x ∷ xs) a e h = ground (arith, first-append p xs a)

  pub keep-append : (p : A → Bool) (xs ys : List A) → keep p (xs ++ ys) ≡ keep p xs ++ keep p ys
  keep-append p [] ys = refl
  keep-append p (x ∷ xs) ys = ground (arith, keep-append p xs ys)

  pub all-append : (p : A → Bool) (xs ys : List A) → all p (xs ++ ys) ≡ (all p xs && all p ys)
  all-append p [] ys = refl
  all-append p (x ∷ xs) ys = ground (arith, all-append p xs ys)

  pub keep-all : (p : A → Bool) (xs : List A) → all p xs ≡ true → keep p xs ≡ xs
  keep-all p [] h = refl
  keep-all p (x ∷ xs) h = ground (arith, keep-all p xs)

  pub all-keep : (p q : A → Bool) (xs : List A) → all p xs ≡ true → all p (keep q xs) ≡ true
  all-keep p q [] h = refl
  all-keep p q (x ∷ xs) h = ground (arith, all-keep p q xs)

  pub all_or_right :
      (p q : A → Bool) (xs : List A) → all q xs ≡ true → all (λ a. p a || q a) xs ≡ true
  all_or_right p q [] h = refl
  all_or_right p q (x ∷ xs) h = ground (arith, all_or_right p q xs)

module _ {ℓ} {A : Type ℓ} where
  pub keep-mem :
      (p : A → Bool) (xs : List A) (a : A) → Memᴰ a (keep p xs) → Memᴰ a xs × (p a ≡ true)
  keep-mem p [] a m = elim m [ ]
  keep-mem p (x ∷ xs) a m = elim (Bool-cases (p x)) [
    | inr out ↦ let (n, e) = keep-mem p xs a (rw (out, if◌then◌else◌) at m) in (Memᴰ.tail n, e)
    | inl taken ↦ elim (Memᴰ.cases_cons (rw (taken, if◌then◌else◌) at m)) [
      | inl same ↦ (Memᴰ.head same, ap p same ∙ taken)
      | inr later ↦ let (n, e) = keep-mem p xs a later in (Memᴰ.tail n, e)
    ]
  ]

  pub mem-keep : (p : A → Bool) {a : A} (xs : List A) → Memᴰ a xs → p a ≡ true → Memᴰ a (keep p xs)
  mem-keep p [] m e = elim m [ ]
  mem-keep p {a} (x ∷ xs) m e = elim (Memᴰ.cases_cons m) [
    | inl same ↦ rw (sym (ap p same) ∙ e) (Memᴰ.head same)
    | inr later ↦ elim (Bool-cases (p x)) [
      | inl taken ↦ rw taken (Memᴰ.tail (mem-keep p xs later e))
      | inr out ↦ rw out (mem-keep p xs later e)
    ]
  ]

  pub any-mem : (p : A → Bool) (xs : List A) → any p xs ≡ true → (a : A) × Memᴰ a xs × (p a ≡ true)
  any-mem p [] h = cc
  any-mem p (x ∷ xs) h = elim (Bool-cases (p x)) [
    | inl e ↦ (x, Memᴰ.head refl, e)
    | inr e ↦ let (a, m, f) = any-mem p xs (rw (e, ◌||◌) at h) in (a, Memᴰ.tail m, f)
  ]

  pub mem-any : (p : A → Bool) {a : A} (xs : List A) → Memᴰ a xs → p a ≡ true → any p xs ≡ true
  mem-any p [] m e = elim m [ ]
  mem-any p (x ∷ xs) m e = elim (Memᴰ.cases_cons m) [
    | inl same ↦ rw (sym (ap p same) ∙ e)
    | inr later ↦ ground (arith, mem-any p xs later e)
  ]

module _ {ℓ} {B : Type ℓ} where
  abbrev pub cons_some : Option B → List B → List B
  cons_some none ys = ys
  cons_some (some y) ys = y ∷ ys

  cons_some-mem :
      (o : Option B) (ys : List B) {y : B} → Memᴰ y (cons_some o ys) → (o ≡ some y) ⊎ Memᴰ y ys
  cons_some-mem none ys m = inr m
  cons_some-mem (some z) ys m = elim (Memᴰ.cases_cons m) [
    | inl e ↦ inl (ap some (sym e))
    | inr n ↦ inr n
  ]

  mem-cons_some : (o : Option B) {ys : List B} {y : B} → Memᴰ y ys → Memᴰ y (cons_some o ys)
  mem-cons_some none m = m
  mem-cons_some (some z) m = Memᴰ.tail m

module _ {ℓ κ} {A : Type ℓ} {B : Type κ} where
  -- A comprehension that passes over what has no value.
  abbrev pub filter_map : (A → Option B) → List A → List B
  filter_map f [] = []
  filter_map f (x ∷ xs) = cons_some (f x) (filter_map f xs)

  pub filter_map-mem :
      (f : A → Option B) (xs : List A) (y : B)
      → Memᴰ y (filter_map f xs)
      → (x : A) × Memᴰ x xs × (f x ≡ some y)
  filter_map-mem f [] y m = elim m [ ]
  filter_map-mem f (x ∷ xs) y m = elim (cons_some-mem (f x) (filter_map f xs) m) [
    | inl e ↦ (x, Memᴰ.head refl, e)
    | inr n ↦ let (a, listed, e) = filter_map-mem f xs y n in (a, Memᴰ.tail listed, e)
  ]

  pub mem-filter_map :
      (f : A → Option B) {x : A} (xs : List A) {y : B}
      → Memᴰ x xs
      → f x ≡ some y
      → Memᴰ y (filter_map f xs)
  mem-filter_map f [] m e = elim m [ ]
  mem-filter_map f {x} (z ∷ xs) {y} m e = elim (Memᴰ.cases_cons m) [
    | inl same ↦
        subst (λ o. Memᴰ y (cons_some o (filter_map f xs))) (sym e ∙ ap f same) (Memᴰ.head refl)
    | inr n ↦ mem-cons_some (f z) (mem-filter_map f xs n e)
  ]

  pub length-filter_map : (f : A → Option B) (xs : List A) → length (filter_map f xs) ≤ length xs
  length-filter_map f [] = omega arith
  length-filter_map f (x ∷ xs) = ground (arith, length-filter_map f xs)
