-- ===== src/Search/Correct.antt =====
-- The search finds a state that passes the test exactly if a walk leads to one.
use aicti.Base.{
  ℕ, zero, suc, ◌≡◌, refl, sym, ap, subst, ◌∙◌, ◌⊎◌, inl, inr, ◌↔◌, Bool, true, false, not, ◌&&◌,
  ◌||◌, some, List, [], ◌∷◌, ◌++◌, elem, any-append, arith, Bool-cases, or_true,
}
use aicti.Search.{push, run, search}

-- The states that `expand` leads to, in any number of steps.
pub data Walk {S : Type 0} (eq : S → S → Bool) (expand : S → List S) (s : S) : S → Type 0 where
  stop : Walk eq expand s s
  go : {t u : S} → Walk eq expand s t → elem eq u (expand t) ≡ true → Walk eq expand s u

module _ {S : Type 0} (eq : S → S → Bool) (eq_to : (a b : S) → (eq a b ≡ true) ↔ (a ≡ b)) where
  elem_congr : (x s : S) (l : List S) → eq x s ≡ true → elem eq x l ≡ elem eq s l
  elem_congr x s l h = ap (λ y. elem eq y l) ((eq_to x s).0 h)

  push-visited :
      (visited queue ss : List S) (x : S)
      → elem eq x (push eq visited queue ss).0 ≡ (elem eq x visited || elem eq x ss)
  unfolding push
  push-visited visited queue [] x = ground arith
  push-visited visited queue (s ∷ ss) x = ground (
    arith,
    elem_congr x s visited,
    push-visited visited queue ss x,
    push-visited (s ∷ visited) (queue ++ s ∷ []) ss x,
  )

  push-queue :
      (visited queue ss : List S) (x : S)
      → elem eq x (push eq visited queue ss).1
        ≡ (elem eq x queue || (elem eq x ss && not (elem eq x visited)))
  unfolding push
  push-queue visited queue [] x = ground arith
  push-queue visited queue (s ∷ ss) x = ground (
    arith,
    elem_congr x s visited,
    any-append (eq x) queue (s ∷ []),
    push-queue visited queue ss x,
    push-queue (s ∷ visited) (queue ++ s ∷ []) ss x,
  )

module _ {S : Type 0} (eq : S → S → Bool) (eq_to : (a b : S) → (eq a b ≡ true) ↔ (a ≡ b))
    (goal : S → Bool) (expand : S → List S) (start : S) where
  run_sound :
      (fuel : ℕ) (visited queue : List S)
      → ((x : S) → elem eq x queue ≡ true → Walk eq expand start x)
      → run eq goal expand fuel visited queue ≡ some true
      → (t : S) × Walk eq expand start t × (goal t ≡ true)
  unfolding run
  run_sound zero visited queue reached h = cc
  run_sound (suc fuel) visited [] reached h = cc
  run_sound (suc fuel) visited (s ∷ queue) reached h =
      let at_s : Walk eq expand start s = reached s (ground (arith, (eq_to s s).1 refl)) in
      elim (Bool-cases (goal s)) [
        | inl found ↦ (s, at_s, found)
        | inr other ↦
            run_sound fuel (push eq visited queue (expand s)).0 (push eq visited queue (expand s)).1
              (λ x q.
                elim (or_true (elem eq x queue) _
                  (sym (push-queue eq eq_to visited queue (expand s) x) ∙ q)) [
                    | inl old ↦ reached x (ground (arith, old))
                    | inr new ↦ Walk.go at_s (ground (arith, new))
                  ])
              (rw (other, run) at h)
      ]

  -- A visited state is queued, or was expanded and is no goal.
  record Inv (visited queue : List S) : Type 0 where
    closed :
        (x : S)
        → elem eq x visited ≡ true
        → (elem eq x queue ≡ true)
          ⊎ ((goal x ≡ false) × ((y : S) → elem eq y (expand x) ≡ true → elem eq y visited ≡ true))

  Inv-push :
      (visited queue : List S) (s : S)
      → goal s ≡ false
      → Inv visited (s ∷ queue)
      → Inv (push eq visited queue (expand s)).0 (push eq visited queue (expand s)).1
  Inv-push visited queue s other inv = record {
    closed = λ x v. split x v (Bool-cases (elem eq x visited));
  }
    where
      onto : S → Bool
      onto x = elem eq x (push eq visited queue (expand s)).0

      waiting : S → Bool
      waiting x = elem eq x (push eq visited queue (expand s)).1

      grows : (y : S) → elem eq y visited ≡ true → onto y ≡ true
      grows y h = ground (arith, push-visited eq eq_to visited queue (expand s) y)

      expanded : (y : S) → elem eq y (expand s) ≡ true → onto y ≡ true
      expanded y h = ground (arith, push-visited eq eq_to visited queue (expand s) y)

      was_seen :
          (x : S)
          → ((elem eq x (s ∷ queue) ≡ true)
              ⊎ ((goal x ≡ false)
                  × ((y : S) → elem eq y (expand x) ≡ true → elem eq y visited ≡ true)))
          → (waiting x ≡ true)
            ⊎ ((goal x ≡ false) × ((y : S) → elem eq y (expand x) ≡ true → onto y ≡ true))
      was_seen x (inr (g, onward)) = inr (g, λ y e. grows y (onward y e))
      was_seen x (inl q) = elim (or_true (eq x s) (elem eq x queue) q) [
        | inl same ↦ inr (
            subst (λ z. (goal z ≡ false) × ((y : S) → elem eq y (expand z) ≡ true → onto y ≡ true))
              (sym ((eq_to x s).0 same)) (other, expanded))
        | inr later ↦ inl (ground (arith, push-queue eq eq_to visited queue (expand s) x))
      ]

      split :
          (x : S)
          → onto x ≡ true
          → ((elem eq x visited ≡ true) ⊎ (elem eq x visited ≡ false))
          → (waiting x ≡ true)
            ⊎ ((goal x ≡ false) × ((y : S) → elem eq y (expand x) ≡ true → onto y ≡ true))
      split x v (inl seen) = was_seen x (inv.closed x seen)
      split x v (inr fresh) = inl (
          ground (
            arith,
            push-visited eq eq_to visited queue (expand s) x,
            push-queue eq eq_to visited queue (expand s) x,
          ))

  Walk-visited :
      (visited : List S)
      → Inv visited []
      → elem eq start visited ≡ true
      → {t : S} → Walk eq expand start t
      → (elem eq t visited ≡ true) × (goal t ≡ false)
  Walk-visited visited inv at_start Walk.stop = elim (inv.closed start at_start) [
    | inl q ↦ cc
    | inr (g, _) ↦ (at_start, g)
  ]
  Walk-visited visited inv at_start (Walk.go {t = t} {u = u} w e) =
      let (seen, _) = Walk-visited visited inv at_start w in
      elim (inv.closed t seen) [
        | inl q ↦ cc
        | inr (_, onward) ↦ elim (inv.closed u (onward u e)) [
          | inl q ↦ cc
          | inr (g, _) ↦ (onward u e, g)
        ]
      ]

  run_complete :
      (fuel : ℕ) (visited queue : List S)
      → Inv visited queue
      → elem eq start visited ≡ true
      → run eq goal expand fuel visited queue ≡ some false
      → {t : S} → Walk eq expand start t
      → goal t ≡ false
  unfolding run
  run_complete zero visited queue inv at_start h w = cc
  run_complete (suc fuel) visited [] inv at_start h w = (Walk-visited visited inv at_start w).1
  run_complete (suc fuel) visited (s ∷ queue) inv at_start h w = elim (Bool-cases (goal s)) [
    | inl found ↦ cc (rw (found, run) at h)
    | inr other ↦
        let next = push eq visited queue (expand s) in
        run_complete fuel next.0 next.1 (Inv-push visited queue s other inv)
          (ground (arith, push-visited eq eq_to visited queue (expand s) start))
          (rw (other, run) at h) w
  ]

  Inv-start : Inv (start ∷ []) (start ∷ [])
  Inv-start = record { closed = λ x v. inl v }

  -- Whatever the fuel, an answer is right: `true` comes with a walk from the start to a state that
  -- passes the test, and `false` means that no state on any walk from the start passes it.
  pub search_correct :
      (fuel : ℕ)
      → (search eq goal expand fuel start ≡ some true
          → (t : S) × Walk eq expand start t × (goal t ≡ true))
        × (search eq goal expand fuel start ≡ some false
            → (t : S) → Walk eq expand start t
            → goal t ≡ false)
  search_correct fuel = (
    run_sound fuel (start ∷ []) (start ∷ []) reached,
    λ h t w. run_complete fuel (start ∷ []) (start ∷ []) Inv-start self h w,
  )
    where
      self : elem eq start (start ∷ []) ≡ true
      self = ground (arith, (eq_to start start).1 refl)

      reached : (x : S) → elem eq x (start ∷ []) ≡ true → Walk eq expand start x
      reached x q = elim (or_true (eq x start) false q) [
        | inl same ↦ subst (λ z. Walk eq expand start z) (sym ((eq_to x start).0 same)) Walk.stop
        | inr nothing ↦ cc
      ]
