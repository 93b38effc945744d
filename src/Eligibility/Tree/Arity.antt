-- ===== src/Eligibility/Tree/Arity.antt =====
-- engine.py: `_evaluate_operator` on nodes with as many children as their type asks for.
use smart_academic_planning.Prelude.{
  ℕ, zero, suc, Bool, true, false, List, [], ◌∷◌, Dict, get_list, flat_map_by, map, length, ltb,
  ◌==◌, All, All-map, All-append, ◌≡◌, refl, ap, ◌∙◌, arith,
}
use smart_academic_planning.DegreeAudit.Grades.{GradePolicy}
use smart_academic_planning.Eligibility.Records.{
  CourseRuleType, CourseRuleExpression, CourseRuleExpressionNodeType, EligibilityRuleResult,
}
use smart_academic_planning.Eligibility.Result.{
  ReasonCode, EligibilityRequestContext, ExpressionEvaluationResult, empty_and_expression,
  empty_or_expression, invalid_not_expression,
}
use smart_academic_planning.Eligibility.Checked.{Checked, AllOk, bind-AllOk, each}
use smart_academic_planning.Eligibility.Evidence.{EligibilityTables}
use smart_academic_planning.Eligibility.Rollup.{and_match, or_match, not_match, evaluate_operator}
use smart_academic_planning.Eligibility.Tree.{
  TreeResult, entries, own_result, is_operator, result_of, match_expression, tree_of,
  evaluate_expression_tree,
}

abbrev pub is_malformed : ReasonCode → Bool
is_malformed empty_and_expression = true
is_malformed empty_or_expression = true
is_malformed invalid_not_expression = true
is_malformed _ = false

-- Enough operands for the type: one for `NOT`, and some for `AND` and `OR`.
abbrev pub has_operands : CourseRuleExpressionNodeType → ℕ → Bool
has_operands CourseRuleExpressionNodeType.and count = ltb 0 count
has_operands CourseRuleExpressionNodeType.or count = ltb 0 count
has_operands CourseRuleExpressionNodeType.not count = count == 1
has_operands _ count = true

-- An operator's result is not that of a malformed one.
abbrev pub IsRolledUp : ExpressionEvaluationResult → Type 0
IsRolledUp x = is_operator x.node_type ≡ true → is_malformed x.reason_code ≡ false

operator-IsRolledUp :
    (e : CourseRuleExpression) (results : List EligibilityRuleResult)
    → is_operator e.node_type ≡ true
    → has_operands e.node_type (length results) ≡ true
    → is_malformed (evaluate_operator e results).reason_code ≡ false
unfolding evaluate_operator and_match or_match not_match
operator-IsRolledUp e [] h k = ground arith
operator-IsRolledUp e (r ∷ []) h k = ground arith
operator-IsRolledUp e (r ∷ q ∷ rs) h k = ground arith

abbrev pub TreeIsRolledUp : TreeResult → Type 0
TreeIsRolledUp t = All IsRolledUp t.below × IsRolledUp t.own

below-IsRolledUp :
    (ts : List TreeResult) → All TreeIsRolledUp ts → All IsRolledUp (flat_map_by entries ts)
below-IsRolledUp [] h = tt
below-IsRolledUp (t ∷ ts) h =
    All-append IsRolledUp (entries t) (flat_map_by entries ts)
      (All-append IsRolledUp t.below (t.own ∷ []) h.0.0 (h.0.1, tt)) (below-IsRolledUp ts h.1)

-- As many trees as expressions, each rolled up.
abbrev AreTreesOf : List CourseRuleExpression → List TreeResult → Type 0
AreTreesOf es ts = All TreeIsRolledUp ts × (length (map own_result ts) ≡ length es)

each-AreTreesOf :
    (f : CourseRuleExpression → Checked TreeResult) (es : List CourseRuleExpression)
    → All (λ e. AllOk TreeIsRolledUp (f e)) es
    → AllOk (AreTreesOf es) (each f es)
unfolding each
each-AreTreesOf f [] h = (tt, refl)
each-AreTreesOf f (e ∷ es) h = bind-AllOk TreeIsRolledUp (AreTreesOf (e ∷ es)) (f e) _ h.0 λ t here.
    bind-AllOk (AreTreesOf es) (AreTreesOf (e ∷ es)) (each f es) _ (each-AreTreesOf f es h.1)
      λ ts rest. ((here, rest.0), ap suc rest.1)

module _ (db : EligibilityTables) (policy : GradePolicy) (rule_type : CourseRuleType)
    (context : EligibilityRequestContext) (children : Dict (List CourseRuleExpression)) where
  -- The node has its operands.
  abbrev pub HasArity : CourseRuleExpression → Type 0
  HasArity e = has_operands e.node_type (length (get_list e.id children)) ≡ true

  tree_of-IsRolledUp :
      (e : CourseRuleExpression) (ts : List TreeResult)
      → HasArity e
      → AreTreesOf (get_list e.id children) ts
      → TreeIsRolledUp (tree_of db policy rule_type context e ts)
  unfolding tree_of result_of match_expression
  tree_of-IsRolledUp e ts arity h = (
    below-IsRolledUp ts h.0,
    λ op.
        let rolled =
          operator-IsRolledUp e (map own_result ts) op
            (ap (has_operands e.node_type) h.1 ∙ arity) in
        ground arith,
  )

  pub evaluate_expression_tree-IsRolledUp :
      ((k : ℕ) → All HasArity (get_list k children))
      → (depth : ℕ) (e : CourseRuleExpression) → HasArity e
      → AllOk TreeIsRolledUp (evaluate_expression_tree db policy depth rule_type context children e)
  unfolding evaluate_expression_tree
  evaluate_expression_tree-IsRolledUp arities zero e arity = tt
  evaluate_expression_tree-IsRolledUp arities (suc depth) e arity =
      bind-AllOk (AreTreesOf (get_list e.id children)) TreeIsRolledUp _ _
        (each-AreTreesOf (evaluate_expression_tree db policy depth rule_type context children)
          (get_list e.id children)
          (All-map (λ child a. evaluate_expression_tree-IsRolledUp arities depth child a)
            (get_list e.id children) (arities e.id)))
        (λ ts h. tree_of-IsRolledUp e ts arity h)
