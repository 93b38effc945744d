-- ===== src/Eligibility/Rollup.antt =====
-- engine.py: `_rollup_and`, `_rollup_or`, `_rollup_not`, `_evaluate_operator` and
-- `_aggregate_overall`.
pub mod Duality
use smart_academic_planning.Prelude.{Bool, true, false, ◌||◌, List, [], ◌∷◌, if◌then◌else◌}
use smart_academic_planning.Eligibility.Records.{
  EligibilityOverallResult, EligibilityRuleResult, CourseRuleExpression,
  CourseRuleExpressionNodeType,
}
use smart_academic_planning.Eligibility.Result.{AttemptMatch, ReasonCode, match_of}

abbrev pub rule_result_eq : EligibilityRuleResult → EligibilityRuleResult → Bool
rule_result_eq EligibilityRuleResult.satisfied EligibilityRuleResult.satisfied = true
rule_result_eq EligibilityRuleResult.conditionally_satisfied
      EligibilityRuleResult.conditionally_satisfied =
    true
rule_result_eq EligibilityRuleResult.not_satisfied EligibilityRuleResult.not_satisfied = true
rule_result_eq EligibilityRuleResult.permission_required EligibilityRuleResult.permission_required =
    true
rule_result_eq EligibilityRuleResult.manual_review_required
      EligibilityRuleResult.manual_review_required =
    true
rule_result_eq EligibilityRuleResult.not_applicable EligibilityRuleResult.not_applicable = true
rule_result_eq _ _ = false

-- `result in results`
abbrev pub among : EligibilityRuleResult → List EligibilityRuleResult → Bool
among r [] = false
among r (x ∷ xs) = rule_result_eq r x || among r xs

unfoldable pub rollup_and : List EligibilityRuleResult → EligibilityRuleResult
rollup_and results =
    if among EligibilityRuleResult.not_satisfied results
    then EligibilityRuleResult.not_satisfied
    else if among EligibilityRuleResult.permission_required results
    then EligibilityRuleResult.permission_required
    else if among EligibilityRuleResult.conditionally_satisfied results
    then EligibilityRuleResult.conditionally_satisfied
    else if among EligibilityRuleResult.manual_review_required results
    then EligibilityRuleResult.manual_review_required
    else EligibilityRuleResult.satisfied

unfoldable pub rollup_or : List EligibilityRuleResult → EligibilityRuleResult
rollup_or results =
    if among EligibilityRuleResult.satisfied results
    then EligibilityRuleResult.satisfied
    else if among EligibilityRuleResult.conditionally_satisfied results
    then EligibilityRuleResult.conditionally_satisfied
    else if among EligibilityRuleResult.permission_required results
    then EligibilityRuleResult.permission_required
    else if among EligibilityRuleResult.manual_review_required results
    then EligibilityRuleResult.manual_review_required
    else EligibilityRuleResult.not_satisfied

unfoldable pub rollup_not : EligibilityRuleResult → EligibilityRuleResult
rollup_not EligibilityRuleResult.satisfied = EligibilityRuleResult.not_satisfied
rollup_not EligibilityRuleResult.not_satisfied = EligibilityRuleResult.satisfied
rollup_not _ = EligibilityRuleResult.manual_review_required

abbrev pub needs_review : ReasonCode → AttemptMatch
needs_review code = match_of EligibilityRuleResult.manual_review_required code

unfoldable pub and_match : List EligibilityRuleResult → AttemptMatch
and_match [] = needs_review ReasonCode.empty_and_expression
and_match (r ∷ rs) = match_of (rollup_and (r ∷ rs)) ReasonCode.and_rollup

unfoldable pub or_match : List EligibilityRuleResult → AttemptMatch
or_match [] = needs_review ReasonCode.empty_or_expression
or_match (r ∷ rs) = match_of (rollup_or (r ∷ rs)) ReasonCode.or_rollup

unfoldable pub not_match : List EligibilityRuleResult → AttemptMatch
not_match (r ∷ []) = match_of (rollup_not r) ReasonCode.not_rollup
not_match _ = needs_review ReasonCode.invalid_not_expression

-- What is neither `AND` nor `OR` is taken for `NOT`.
unfoldable pub evaluate_operator : CourseRuleExpression → List EligibilityRuleResult → AttemptMatch
evaluate_operator expression results = elim expression.node_type [
  | CourseRuleExpressionNodeType.and ↦ and_match results
  | CourseRuleExpressionNodeType.or ↦ or_match results
  | _ ↦ not_match results
]

unfoldable pub aggregate_overall : List EligibilityRuleResult → EligibilityOverallResult
aggregate_overall results =
    if among EligibilityRuleResult.not_satisfied results
    then EligibilityOverallResult.not_eligible
    else if among EligibilityRuleResult.permission_required results
    then EligibilityOverallResult.permission_required
    else if among EligibilityRuleResult.conditionally_satisfied results
    then EligibilityOverallResult.conditionally_eligible
    else if among EligibilityRuleResult.manual_review_required results
    then EligibilityOverallResult.manual_review_required
    else EligibilityOverallResult.eligible
