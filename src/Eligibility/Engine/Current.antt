-- ===== src/Eligibility/Engine/Current.antt =====
-- engine.py: `evaluate` in the mode CURRENT.
use smart_academic_planning.Prelude.{
  ℕ, suc, false, Option, none, some, List, [], ◌∷◌, Dict, lookup, flat_map_by, map, All, ◌≤◌,
  length, All-append, ◌≡◌, ◌≢◌, refl, arith,
}
use smart_academic_planning.DegreeAudit.Grades.{GradePolicy}
use smart_academic_planning.Eligibility.Records.{
  EligibilityRuleResult, CourseRule, CourseRuleType, CourseRuleExpression, conditionally_satisfied,
  conditionally_eligible, current,
}
use smart_academic_planning.Eligibility.Result.{
  EligibilityRequestContext, ExpressionEvaluationResult, RuleEvaluationResult, EligibilityResult,
}
use smart_academic_planning.Eligibility.Checked.{Checked, ok, ◌>>=◌, AllOk, bind-AllOk, Ok-Returns}
use smart_academic_planning.Eligibility.Tree.Depth.{HasDistinctIds}
use smart_academic_planning.Eligibility.Engine.Returns.{evaluate_rules-IsOk}
use smart_academic_planning.Eligibility.Evidence.{EligibilityTables}
use smart_academic_planning.Eligibility.Rollup.{
  among, rollup_and, rollup_or, rollup_not, and_match, or_match, not_match, evaluate_operator,
  aggregate_overall,
}
use smart_academic_planning.Eligibility.Leaves.Modes.{IsDecided, evaluate_leaf-IsDecided}
use smart_academic_planning.Eligibility.Tree.{match_expression, evaluate_expression_tree}
use smart_academic_planning.Eligibility.Tree.Results.{
  HasResult, TreeHasResults, entries-All, evaluate_expression_tree-All,
}
use smart_academic_planning.Eligibility.Engine.{
  RuleOutcome, rule_result_of, missing_tree, evaluated_rule, evaluate_rule, evaluate_rules_from,
  evaluate_rules, summarised, without_rules, reasons_from_expressions,
}

among_decided :
    (results : List EligibilityRuleResult)
    → All IsDecided results
    → among conditionally_satisfied results ≡ false
among_decided [] h = refl
among_decided (r ∷ rs) h = ground (arith, h.0, among_decided rs h.1)

operator-IsDecided :
    (e : CourseRuleExpression) (results : List EligibilityRuleResult)
    → All IsDecided results
    → IsDecided (evaluate_operator e results).result
unfolding evaluate_operator and_match or_match not_match rollup_and rollup_or rollup_not
operator-IsDecided e [] h = ground arith
operator-IsDecided e (r ∷ []) h = ground (arith, among_decided (r ∷ []) h)
operator-IsDecided e (r ∷ q ∷ rs) h = ground (arith, among_decided (r ∷ q ∷ rs) h)

overall_decided :
    (results : List EligibilityRuleResult)
    → All IsDecided results
    → aggregate_overall results ≢ conditionally_eligible
unfolding aggregate_overall
overall_decided results h = λ e. ground (arith, among_decided results h)

reasons_decided :
    (expressions : List ExpressionEvaluationResult)
    → All (HasResult IsDecided) expressions
    → reasons_from_expressions conditionally_satisfied expressions ≡ []
unfolding reasons_from_expressions
reasons_decided [] h = refl
reasons_decided (e ∷ es) h = ground (arith, h.0, reasons_decided es h.1)

-- The outcome of a rule is decided, and so are its expressions.
abbrev OutcomeIsDecided : RuleOutcome → Type 0
OutcomeIsDecided o =
    IsDecided o.rule_result.result × All (HasResult IsDecided) o.rule_result.expressions

outcome_results :
    (os : List RuleOutcome)
    → All OutcomeIsDecided os
    → All IsDecided (map (λ (r : RuleEvaluationResult). r.result) (map rule_result_of os))
outcome_results [] h = tt
outcome_results (o ∷ os) h = (h.0.0, outcome_results os h.1)

outcome_expressions :
    (os : List RuleOutcome)
    → All OutcomeIsDecided os
    → All
        (HasResult IsDecided)
        (flat_map_by (λ (r : RuleEvaluationResult). r.expressions) (map rule_result_of os))
outcome_expressions [] h = tt
outcome_expressions (o ∷ os) h =
    All-append (HasResult IsDecided) o.rule_result.expressions _ h.0.1 (outcome_expressions os h.1)

-- Nothing is said to be conditional.
abbrev pub HasNoConditions : EligibilityResult → Type 0
HasNoConditions r = (r.overall_result ≢ conditionally_eligible) × (r.conditional_reasons ≡ [])

module _ (db : EligibilityTables) (policy : GradePolicy) (depth : ℕ)
    (context : EligibilityRequestContext) (now : context.mode ≡ current) where
  match_expression-IsDecided :
      (rule_type : CourseRuleType) (e : CourseRuleExpression) (results : List EligibilityRuleResult)
      → All IsDecided results
      → IsDecided (match_expression db policy rule_type context e results).result
  unfolding match_expression
  match_expression-IsDecided rule_type e results h = ground (
    arith,
    operator-IsDecided e results h,
    evaluate_leaf-IsDecided db policy e rule_type context now,
  )

  evaluate_rule-AllOk :
      (roots : Dict CourseRuleExpression) (children : Dict (List CourseRuleExpression))
      (display_order : ℕ) (rule : CourseRule)
      → AllOk OutcomeIsDecided
          (evaluate_rule db policy depth context roots children display_order rule)
  unfolding evaluate_rule missing_tree evaluated_rule
  evaluate_rule-AllOk roots children display_order rule = go (lookup rule.id roots)
    where
      go :
          (found : Option CourseRuleExpression)
          → AllOk OutcomeIsDecided (elim found as (λ _. Checked RuleOutcome) [
            | none ↦ ok (missing_tree display_order rule)
            | some root ↦
                evaluate_expression_tree db policy depth rule.rule_type context children root
                >>= λ tree. ok (evaluated_rule display_order rule tree)
          ])
      go none = (refl, tt)
      go (some root) =
          bind-AllOk (TreeHasResults IsDecided) OutcomeIsDecided _ _
            (evaluate_expression_tree-All IsDecided db policy rule.rule_type context children
              (match_expression-IsDecided rule.rule_type) depth root)
            λ tree h. (h.1, entries-All IsDecided tree h)

  evaluate_rules_from-AllOk :
      (roots : Dict CourseRuleExpression) (children : Dict (List CourseRuleExpression))
      (display_order : ℕ) (rules : List CourseRule)
      → AllOk
          (All OutcomeIsDecided)
          (evaluate_rules_from db policy depth context roots children display_order rules)
  unfolding evaluate_rules_from
  evaluate_rules_from-AllOk roots children display_order [] = tt
  evaluate_rules_from-AllOk roots children display_order (rule ∷ rules) =
      bind-AllOk OutcomeIsDecided (All OutcomeIsDecided) _ _
        (evaluate_rule-AllOk roots children display_order rule)
        λ o here.
          bind-AllOk (All OutcomeIsDecided) (All OutcomeIsDecided) _ _
            (evaluate_rules_from-AllOk roots children (suc display_order) rules)
            λ os rest. (here, rest)

  evaluate_rules-AllOk :
      (rules : List CourseRule)
      → AllOk HasNoConditions (evaluate_rules db policy depth context rules)
  unfolding evaluate_rules without_rules summarised
  evaluate_rules-AllOk [] = (λ e. ground arith, refl)
  evaluate_rules-AllOk (rule ∷ rules) =
      bind-AllOk (All OutcomeIsDecided) HasNoConditions _ _
        (evaluate_rules_from-AllOk _ _ 0 (rule ∷ rules))
        λ os h.
          (overall_decided _ (outcome_results os h), reasons_decided _ (outcome_expressions os h))

  -- In the mode CURRENT, where no two expressions have one id and the stack is as deep as there are
  -- expressions, the rules are evaluated to a result that is not conditionally eligible and gives no
  -- conditional reason.
  pub evaluate_rules-HasNoConditions :
      (rules : List CourseRule)
      → HasDistinctIds db.expressions
      → length db.expressions ≤ depth
      → (r : EligibilityResult) × (evaluate_rules db policy depth context rules ≡ ok r)
        × HasNoConditions r
  evaluate_rules-HasNoConditions rules distinct deep =
      Ok-Returns HasNoConditions (evaluate_rules db policy depth context rules)
        (evaluate_rules-IsOk db policy depth context rules distinct deep)
        (evaluate_rules-AllOk rules)
