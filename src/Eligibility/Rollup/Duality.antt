-- ===== src/Eligibility/Rollup/Duality.antt =====
-- engine.py: `_rollup_not` against `_rollup_and` and `_rollup_or`.
use smart_academic_planning.Prelude.{false, ◌||◌, List, [], ◌∷◌, map, ◌≡◌, refl, arith}
use smart_academic_planning.Eligibility.Records.{EligibilityRuleResult}
use smart_academic_planning.Eligibility.Rollup.{among, rollup_and, rollup_or, rollup_not}

among-rollup_not :
    (xs : List EligibilityRuleResult)
    → (among EligibilityRuleResult.satisfied (map rollup_not xs)
        ≡ among EligibilityRuleResult.not_satisfied xs)
      × (among EligibilityRuleResult.not_satisfied (map rollup_not xs)
          ≡ among EligibilityRuleResult.satisfied xs)
      × (among EligibilityRuleResult.conditionally_satisfied (map rollup_not xs) ≡ false)
      × (among EligibilityRuleResult.permission_required (map rollup_not xs) ≡ false)
      × (among EligibilityRuleResult.manual_review_required (map rollup_not xs) ≡ (
          among EligibilityRuleResult.conditionally_satisfied xs
          || (among EligibilityRuleResult.permission_required xs
              || (among EligibilityRuleResult.manual_review_required xs
                  || among EligibilityRuleResult.not_applicable xs))))
unfolding rollup_not
among-rollup_not [] = (refl, refl, refl, refl, refl)
among-rollup_not (x ∷ xs) = let rest = among-rollup_not xs in ground arith

-- Among results that are applicable, the negation of a conjunction is the disjunction of the
-- negations, and the negation of a disjunction the conjunction of the negations.
pub rollup_not-Dual :
    (xs : List EligibilityRuleResult)
    → among EligibilityRuleResult.not_applicable xs ≡ false
    → (rollup_not (rollup_and xs) ≡ rollup_or (map rollup_not xs))
      × (rollup_not (rollup_or xs) ≡ rollup_and (map rollup_not xs))
rollup_not-Dual xs h =
    let among_not = among-rollup_not xs in
    unfold rollup_and rollup_or rollup_not in (ground arith, ground arith)
