-- ===== src/Eligibility/Tests.antt =====
-- The theorems on course eligibility, applied to a course with one prerequisite.
use smart_academic_planning.Prelude.{◌+◌, none, some, [], ◌∷◌, map, sum_if, ◌↔◌, ◌≡◌, refl, arith}
use smart_academic_planning.DegreeAudit.Records.{StudentCourseAttempt}
use smart_academic_planning.Eligibility.Records.{EligibilityRuleResult}
use smart_academic_planning.Eligibility.Result.{EligibilityResult}
use smart_academic_planning.Eligibility.Checked.{ok, IsOk}
use smart_academic_planning.Eligibility.Evidence.{effective_student_course_attempts}
use smart_academic_planning.Eligibility.Rollup.{rollup_and, rollup_or, rollup_not}
use smart_academic_planning.Eligibility.Rollup.Duality.{rollup_not-Dual}
use smart_academic_planning.Eligibility.Leaves.{count_credits}
use smart_academic_planning.Eligibility.Leaves.Potential.{is_open_attempt, count_credits-potential}
use smart_academic_planning.Eligibility.Engine.{build_context, evaluate, evaluate_rules}
use smart_academic_planning.Eligibility.Tree.Depth.{HasDistinctIds}
use smart_academic_planning.Eligibility.Engine.Scope.{IsInScope, build_context-IsOk}
use smart_academic_planning.Eligibility.Engine.Returns.{evaluate-IsOk}
use smart_academic_planning.Eligibility.Engine.Current.{
  HasNoConditions, evaluate_rules-HasNoConditions,
}
use smart_academic_planning.Eligibility.Engine.Verdict.{IsVerdictOn, evaluate_rules-IsVerdict}
use smart_academic_planning.Eligibility.Store.{StoredCheck, create_check}
use smart_academic_planning.Eligibility.Store.Keys.{IsLinked}
use smart_academic_planning.Eligibility.Store.Checks.{create_check-evaluate_rules}
use smart_academic_planning.Eligibility.Samples.{tables, grades, a_rule, a_request, a_context}

four_ids : HasDistinctIds tables.expressions
four_ids = (refl, (refl, (refl, (refl, tt))))

rollup_not-Dual_example :
    (rollup_not
        (rollup_and (EligibilityRuleResult.satisfied ∷ EligibilityRuleResult.not_satisfied ∷ []))
      ≡ rollup_or (
          map rollup_not
            (EligibilityRuleResult.satisfied ∷ EligibilityRuleResult.not_satisfied ∷ [])))
    × (rollup_not
          (rollup_or (EligibilityRuleResult.satisfied ∷ EligibilityRuleResult.not_satisfied ∷ []))
        ≡ rollup_and (
            map rollup_not
              (EligibilityRuleResult.satisfied ∷ EligibilityRuleResult.not_satisfied ∷ [])))
rollup_not-Dual_example =
    rollup_not-Dual (EligibilityRuleResult.satisfied ∷ EligibilityRuleResult.not_satisfied ∷ [])
      refl

count_credits-potential_example :
    (count_credits tables 1).potential
    ≡ sum_if is_open_attempt
        (λ (a : StudentCourseAttempt). a.credits_attempted)
        (effective_student_course_attempts tables 1 none)
count_credits-potential_example = count_credits-potential tables 1

build_context-IsOk_example : IsOk (build_context tables a_request) ↔ IsInScope tables a_request
build_context-IsOk_example = build_context-IsOk tables a_request

evaluate-IsOk_example :
    IsOk (evaluate tables grades 4 (λ _. none) a_request) ↔ IsInScope tables a_request
evaluate-IsOk_example = evaluate-IsOk tables grades 4 (λ _. none) a_request four_ids (omega arith)

evaluate_rules-HasNoConditions_example :
    (r : EligibilityResult) × (evaluate_rules tables grades 4 a_context (a_rule ∷ []) ≡ ok r)
    × HasNoConditions r
evaluate_rules-HasNoConditions_example =
    evaluate_rules-HasNoConditions tables grades 4 a_context refl (a_rule ∷ []) four_ids
      (omega arith)

evaluate_rules-IsVerdict_example :
    (r : EligibilityResult) × (evaluate_rules tables grades 4 a_context (a_rule ∷ []) ≡ ok r)
    × IsVerdictOn (a_rule ∷ []) r
evaluate_rules-IsVerdict_example =
    evaluate_rules-IsVerdict tables grades 4 a_context a_rule [] four_ids (omega arith)

create_check-evaluate_rules_example :
    (r : EligibilityResult) × (evaluate_rules tables grades 4 a_context (a_rule ∷ []) ≡ ok r)
    × (check : StoredCheck) × (create_check (λ n. 100 + n) r ≡ some check)
    × IsLinked r check
create_check-evaluate_rules_example =
    create_check-evaluate_rules tables grades 4 a_context (λ n. 100 + n) (a_rule ∷ []) four_ids
      (omega arith)
