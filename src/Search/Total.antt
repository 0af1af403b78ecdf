-- ===== src/Search/Total.antt =====
-- How much fuel the search takes: it ends wherever a state weighs more than all it expands to.
use aicti.Base.{
  ℕ, zero, suc, ◌+◌, ◌≤◌, ◌<◌, ◌≡◌, refl, inl, inr, Bool, true, false, some, List, [], ◌∷◌, ◌++◌,
  arith, Bool-cases,
}
use aicti.Search.{push, run, search}

module _ {S : Type 0} (eq : S → S → Bool) (weight : S → ℕ) where
  abbrev pub total : List S → ℕ
  total [] = 0
  total (s ∷ ss) = weight s + total ss

  total-append : (xs ys : List S) → total (xs ++ ys) ≡ total xs + total ys
  total-append [] ys = omega arith
  total-append (x ∷ xs) ys = omega (arith, total-append xs ys)

  total-push :
      (visited queue ss : List S) → total (push eq visited queue ss).1 ≤ total queue + total ss
  unfolding push
  total-push visited queue [] = omega arith
  total-push visited queue (s ∷ ss) = ground (
    arith,
    total-append queue (s ∷ []),
    total-push visited queue ss,
    total-push (s ∷ visited) (queue ++ s ∷ []) ss,
  )

module _ {S : Type 0} (eq : S → S → Bool) (goal : S → Bool) (expand : S → List S) (weight : S → ℕ)
    (lighter : (s : S) → total eq weight (expand s) < weight s) where
  run_total :
      (fuel : ℕ) (visited queue : List S)
      → total eq weight queue < fuel
      → (b : Bool) × (run eq goal expand fuel visited queue ≡ some b)
  unfolding run
  run_total zero visited queue h = absurd (omega arith)
  run_total (suc fuel) visited [] h = (false, refl)
  run_total (suc fuel) visited (s ∷ queue) h = elim (Bool-cases (goal s)) [
    | inl found ↦ (true, rw (found, run))
    | inr other ↦
        let next = push eq visited queue (expand s) in
        let (b, e) =
          run_total fuel next.0 next.1
            (omega (arith, lighter s, total-push eq weight visited queue (expand s))) in
        (b, rw (other, run) e)
  ]

  -- Where a state weighs more than all that it expands to together, fuel above the weight of the
  -- start is enough.
  pub search_total :
      (fuel : ℕ) (start : S)
      → weight start < fuel
      → (b : Bool) × (search eq goal expand fuel start ≡ some b)
  search_total fuel start h = run_total fuel (start ∷ []) (start ∷ []) (omega arith)
