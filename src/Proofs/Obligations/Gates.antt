-- ===== src/Proofs/Obligations/Gates.antt =====
-- What the gates on proof obligations let pass.
use aicti.Base.{◌≡◌, refl, true, false, List, [], ◌∷◌, ◌++◌, all, ok, err, arith}
use aicti.Proofs.Obligations.{
  ProofObligation, is_selectable, verify_selectable, can_enter_final_review,
}

-- The error names the first obligation that is neither proven nor not applicable with a
-- justification: all before it pass, and nothing after it is looked at.
verify_selectable_first :
    (before after : List ProofObligation) (o : ProofObligation)
    → all is_selectable before ≡ true
    → is_selectable o ≡ false
    → verify_selectable (before ++ o ∷ after)
      ≡ err (record { claim_type = o.claim_type; status = o.status })
unfolding verify_selectable
verify_selectable_first [] after o h k = ground arith
verify_selectable_first (b ∷ bs) after o h k = ground (arith, verify_selectable_first bs after o)

verify_selectable_total :
    (os : List ProofObligation) → all is_selectable os ≡ true → verify_selectable os ≡ ok true
unfolding verify_selectable
verify_selectable_total [] h = refl
verify_selectable_total (o ∷ os) h = ground (arith, verify_selectable_total os)

all_selectable_of_review :
    (os : List ProofObligation)
    → can_enter_final_review true os ≡ true
    → all is_selectable os ≡ true
unfolding can_enter_final_review is_selectable
all_selectable_of_review [] h = refl
all_selectable_of_review (o ∷ os) h = ground (arith, all_selectable_of_review os)
