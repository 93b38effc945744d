-- ===== src/Eligibility/Engine/Verdict.antt =====
-- engine.py: the overall result of `evaluate`, against the results of the rules.
use smart_academic_planning.Prelude.{
  ℕ, suc, ◌≤◌, false, Option, none, some, List, [], ◌∷◌, Dict, lookup, map, length, All, ◌≡◌, ◌↔◌,
  ◌⊎◌, inl, inr, refl, arith,
}
use mathlib.Core.Path.{ap₂}
use smart_academic_planning.DegreeAudit.Grades.{GradePolicy}
use smart_academic_planning.Eligibility.Records.{
  EligibilityRuleResult, CourseRule, CourseRuleExpression, satisfied, not_applicable, eligible,
}
use smart_academic_planning.Eligibility.Result.{
  EligibilityRequestContext, RuleEvaluationResult, EligibilityResult,
}
use smart_academic_planning.Eligibility.Checked.{
  Checked, ok, raise, ◌>>=◌, AllOk, bind-AllOk, Ok-Returns,
}
use smart_academic_planning.Eligibility.Evidence.{EligibilityTables}
use smart_academic_planning.Eligibility.Rollup.{rule_result_eq, among, aggregate_overall}
use smart_academic_planning.Eligibility.Tree.{TreeResult, evaluate_expression_tree}
use smart_academic_planning.Eligibility.Tree.Depth.{HasDistinctIds}
use smart_academic_planning.Eligibility.Engine.{
  RuleOutcome, rule_result_of, missing_tree, evaluated_rule, evaluate_rule, evaluate_rules_from,
  evaluate_rules, summarised,
}
use smart_academic_planning.Eligibility.Engine.Returns.{evaluate_rules-IsOk}

-- The result does not stand in the way.
abbrev pub IsMet : EligibilityRuleResult → Type 0
IsMet r = (r ≡ satisfied) ⊎ (r ≡ not_applicable)

aggregate_overall-eligible :
    (results : List EligibilityRuleResult)
    → (aggregate_overall results ≡ eligible) ↔ All IsMet results
unfolding aggregate_overall
aggregate_overall-eligible results = (
  λ h. met results (ground arith) (ground arith) (ground arith) (ground arith),
  λ h. let k = clear results h in ground arith,
)
  where
    met :
        (rs : List EligibilityRuleResult)
        → among EligibilityRuleResult.not_satisfied rs ≡ false
        → among EligibilityRuleResult.permission_required rs ≡ false
        → among EligibilityRuleResult.conditionally_satisfied rs ≡ false
        → among EligibilityRuleResult.manual_review_required rs ≡ false
        → All IsMet rs
    met [] a b c d = tt
    met (r ∷ rs) a b c d = (
      one r (ground arith) (ground arith) (ground arith) (ground arith),
      met rs (ground arith) (ground arith) (ground arith) (ground arith),
    )
      where
        one :
            (r : EligibilityRuleResult)
            → rule_result_eq EligibilityRuleResult.not_satisfied r ≡ false
            → rule_result_eq EligibilityRuleResult.permission_required r ≡ false
            → rule_result_eq EligibilityRuleResult.conditionally_satisfied r ≡ false
            → rule_result_eq EligibilityRuleResult.manual_review_required r ≡ false
            → IsMet r
        one satisfied a b c d = inl refl
        one not_applicable a b c d = inr refl
        one r a b c d = ground arith

    clear :
        (rs : List EligibilityRuleResult)
        → All IsMet rs
        → (among EligibilityRuleResult.not_satisfied rs ≡ false)
          × (among EligibilityRuleResult.permission_required rs ≡ false)
          × (among EligibilityRuleResult.conditionally_satisfied rs ≡ false)
          × (among EligibilityRuleResult.manual_review_required rs ≡ false)
    clear [] h = (refl, refl, refl, refl)
    clear (r ∷ rs) h = let k = clear rs h.1 in let here = h.0 in ground arith

-- One result for each rule, in their order, and the overall result is eligible exactly if all are met.
abbrev pub IsVerdictOn : List CourseRule → EligibilityResult → Type 0
IsVerdictOn rules r =
    (map (λ (x : RuleEvaluationResult). x.course_rule_id) r.rule_evaluations
      ≡ map (λ (rule : CourseRule). rule.id) rules)
    × ((r.overall_result ≡ eligible)
        ↔ All IsMet (map (λ (x : RuleEvaluationResult). x.result) r.rule_evaluations))

abbrev HasIdsOf : List CourseRule → List RuleOutcome → Type 0
HasIdsOf rules os =
    map (λ (x : RuleEvaluationResult). x.course_rule_id) (map rule_result_of os)
    ≡ map (λ (rule : CourseRule). rule.id) rules

module _ (db : EligibilityTables) (policy : GradePolicy) (depth : ℕ)
    (context : EligibilityRequestContext) where
  evaluate_rule-AllOk :
      (roots : Dict CourseRuleExpression) (children : Dict (List CourseRuleExpression))
      (display_order : ℕ) (rule : CourseRule)
      → AllOk
          (λ o. o.rule_result.course_rule_id ≡ rule.id)
          (evaluate_rule db policy depth context roots children display_order rule)
  unfolding evaluate_rule missing_tree evaluated_rule
  evaluate_rule-AllOk roots children display_order rule = go (lookup rule.id roots)
    where
      go :
          (found : Option CourseRuleExpression)
          → AllOk
              (λ o. o.rule_result.course_rule_id ≡ rule.id)
              (elim found as (λ _. Checked RuleOutcome) [
                | none ↦ ok (missing_tree display_order rule)
                | some root ↦
                    evaluate_expression_tree db policy depth rule.rule_type context children root
                    >>= λ tree. ok (evaluated_rule display_order rule tree)
              ])
      go none = refl
      go (some root) =
          named (evaluate_expression_tree db policy depth rule.rule_type context children root)
        where
          named :
              (m : Checked TreeResult)
              → AllOk
                  (λ o. o.rule_result.course_rule_id ≡ rule.id)
                  (m >>= λ tree. ok (evaluated_rule display_order rule tree))
          named (ok t) = refl
          named (raise e) = tt

  evaluate_rules_from-AllOk :
      (roots : Dict CourseRuleExpression) (children : Dict (List CourseRuleExpression))
      (display_order : ℕ) (rules : List CourseRule)
      → AllOk
          (HasIdsOf rules)
          (evaluate_rules_from db policy depth context roots children display_order rules)
  unfolding evaluate_rules_from
  evaluate_rules_from-AllOk roots children display_order [] = refl
  evaluate_rules_from-AllOk roots children display_order (rule ∷ rules) =
      bind-AllOk (λ o. o.rule_result.course_rule_id ≡ rule.id) (HasIdsOf (rule ∷ rules)) _ _
        (evaluate_rule-AllOk roots children display_order rule)
        λ o here.
          bind-AllOk (HasIdsOf rules) (HasIdsOf (rule ∷ rules)) _ _
            (evaluate_rules_from-AllOk roots children (suc display_order) rules)
            λ os rest. ap₂ (λ x xs. x ∷ xs) here rest

  evaluate_rules-AllOk :
      (rule : CourseRule) (rules : List CourseRule)
      → AllOk (IsVerdictOn (rule ∷ rules)) (evaluate_rules db policy depth context (rule ∷ rules))
  unfolding evaluate_rules summarised
  evaluate_rules-AllOk rule rules =
      bind-AllOk (HasIdsOf (rule ∷ rules)) (IsVerdictOn (rule ∷ rules)) _ _
        (evaluate_rules_from-AllOk _ _ 0 (rule ∷ rules))
        λ os ids. (ids, aggregate_overall-eligible _)

  -- Where there is a rule, no two expressions have one id and the stack is as deep as there are
  -- expressions, the rules are evaluated to a result that holds one result for each rule, in their
  -- order, and that is eligible exactly if each of them is satisfied or not applicable.
  pub evaluate_rules-IsVerdict :
      (rule : CourseRule) (rules : List CourseRule)
      → HasDistinctIds db.expressions
      → length db.expressions ≤ depth
      → (r : EligibilityResult) × (evaluate_rules db policy depth context (rule ∷ rules) ≡ ok r)
        × IsVerdictOn (rule ∷ rules) r
  evaluate_rules-IsVerdict rule rules distinct deep =
      Ok-Returns (IsVerdictOn (rule ∷ rules))
        (evaluate_rules db policy depth context (rule ∷ rules))
        (evaluate_rules-IsOk db policy depth context (rule ∷ rules) distinct deep)
        (evaluate_rules-AllOk rule rules)
