-- ===== src/Search.antt =====
-- The breadth-first search that services/evidence_graph.py writes out twice: a queue of states, the
-- set of the states that were ever put into it, and a test on each state that leaves the queue.
pub mod Correct
pub mod Total
use aicti.Base.{
  ℕ, zero, suc, ◌+◌, Bool, true, false, Option, none, some, List, [], ◌∷◌, ◌++◌, elem,
  if◌then◌else◌,
}

module _ {S : Type 0} (eq : S → S → Bool) where
  -- The inner loop: a state is visited and queued unless it was visited before.
  unfoldable pub push : List S → List S → List S → List S × List S
  push visited queue [] = (visited, queue)
  push visited queue (s ∷ ss) = elim (elem eq s visited) [
    | true ↦ push visited queue ss
    | false ↦ push (s ∷ visited) (queue ++ s ∷ []) ss
  ]

module _ {S : Type 0} (eq : S → S → Bool) (goal : S → Bool) (expand : S → List S) where
  -- The outer loop, on fuel: `none` means that the fuel ran out.
  unfoldable pub run : ℕ → List S → List S → Option Bool
  run zero visited queue = none
  run (suc fuel) visited [] = some false
  run (suc fuel) visited (s ∷ queue) = elim (goal s) [
    | true ↦ some true
    | false ↦ let (visited', queue') = push eq visited queue (expand s) in run fuel visited' queue'
  ]

  abbrev pub search : ℕ → S → Option Bool
  search fuel start = run fuel (start ∷ []) (start ∷ [])
