-- ===== src/Eligibility/Tree/Results.antt =====
-- engine.py: what holds of every result that `_evaluate_expression_tree` returns.
use smart_academic_planning.Prelude.{
  ℕ, zero, suc, List, [], ◌∷◌, Dict, get_list, flat_map_by, map, All, All-append,
}
use smart_academic_planning.DegreeAudit.Grades.{GradePolicy}
use smart_academic_planning.Eligibility.Records.{
  CourseRuleType, CourseRuleExpression, EligibilityRuleResult,
}
use smart_academic_planning.Eligibility.Result.{
  EligibilityRequestContext, ExpressionEvaluationResult,
}
use smart_academic_planning.Eligibility.Checked.{AllOk, bind-AllOk, each-AllOk}
use smart_academic_planning.Eligibility.Evidence.{EligibilityTables}
use smart_academic_planning.Eligibility.Tree.{
  TreeResult, entries, own_result, result_of, match_expression, tree_of, evaluate_expression_tree,
}

module _ (Q : EligibilityRuleResult → Type 0) where
  -- The result of an entry has the property.
  abbrev pub HasResult : ExpressionEvaluationResult → Type 0
  HasResult e = Q e.result

  abbrev pub TreeHasResults : TreeResult → Type 0
  TreeHasResults t = All HasResult t.below × Q t.own.result

  pub entries-All : (t : TreeResult) → TreeHasResults t → All HasResult (entries t)
  entries-All t h = All-append HasResult t.below (t.own ∷ []) h.0 (h.1, tt)

  all_entries :
      (ts : List TreeResult) → All TreeHasResults ts → All HasResult (flat_map_by entries ts)
  all_entries [] h = tt
  all_entries (t ∷ ts) h =
      All-append HasResult (entries t) (flat_map_by entries ts) (entries-All t h.0)
        (all_entries ts h.1)

  own_results : (ts : List TreeResult) → All TreeHasResults ts → All Q (map own_result ts)
  own_results [] h = tt
  own_results (t ∷ ts) h = (h.0.1, own_results ts h.1)

  module _ (db : EligibilityTables) (policy : GradePolicy) (rule_type : CourseRuleType)
      (context : EligibilityRequestContext) (children : Dict (List CourseRuleExpression))
      (step : (e : CourseRuleExpression) (results : List EligibilityRuleResult)
        → All Q results
        → Q (match_expression db policy rule_type context e results).result) where
    -- A property that each expression hands on from its operands holds of the whole tree.
    pub evaluate_expression_tree-All :
        (depth : ℕ) (e : CourseRuleExpression)
        → AllOk TreeHasResults
            (evaluate_expression_tree db policy depth rule_type context children e)
    unfolding evaluate_expression_tree tree_of result_of
    evaluate_expression_tree-All zero e = tt
    evaluate_expression_tree-All (suc depth) e =
        bind-AllOk (All TreeHasResults) TreeHasResults _ _
          (each-AllOk TreeHasResults
            (evaluate_expression_tree db policy depth rule_type context children)
            (get_list e.id children) (λ child. evaluate_expression_tree-All depth child))
          λ trees h. (all_entries trees h, step e (map own_result trees) (own_results trees h))
