-- ===== src/Eligibility/Tree.antt =====
-- engine.py: `_load_expression_tree` and `_evaluate_expression_tree`. The table allows a cycle of
-- parents, so the recursion runs on fuel, which stands for Python's stack.
pub mod Depth
pub mod Results
pub mod Arity
use smart_academic_planning.Prelude.{
  ℕ, zero, suc, Bool, true, false, ◌&&◌, ◌||◌, Option, none, some, List, [], ◌∷◌, ◌++◌, Dict,
  assign, get_list, ltb, leb, ◌==◌, filter_by, any_by, flat_map_by, map,
}
use smart_academic_planning.DegreeAudit.Records.{Uuid}
use smart_academic_planning.DegreeAudit.Grades.{GradePolicy}
use smart_academic_planning.DegreeAudit.Index.{group_by}
use smart_academic_planning.Eligibility.Records.{
  CourseRuleType, CourseRuleExpression, CourseRuleExpressionNodeType, EligibilityRuleResult,
}
use smart_academic_planning.Eligibility.Result.{
  AttemptMatch, EligibilityRequestContext, ExpressionEvaluationResult, recursion_error,
}
use smart_academic_planning.Eligibility.Checked.{Checked, ok, raise, ◌>>=◌, each}
use smart_academic_planning.Eligibility.Evidence.{EligibilityTables, is_none}
use smart_academic_planning.Eligibility.Rollup.{evaluate_operator}
use smart_academic_planning.Eligibility.Leaves.{evaluate_leaf}

-- The place of a type's text in the order of texts.
abbrev pub node_type_rank : CourseRuleExpressionNodeType → ℕ
node_type_rank CourseRuleExpressionNodeType.and = 0
node_type_rank CourseRuleExpressionNodeType.campus_restriction = 1
node_type_rank CourseRuleExpressionNodeType.class_standing = 2
node_type_rank CourseRuleExpressionNodeType.completed_course = 3
node_type_rank CourseRuleExpressionNodeType.major_restriction = 4
node_type_rank CourseRuleExpressionNodeType.minimum_completed_credits = 5
node_type_rank CourseRuleExpressionNodeType.minimum_grade = 6
node_type_rank CourseRuleExpressionNodeType.minor_restriction = 7
node_type_rank CourseRuleExpressionNodeType.not = 8
node_type_rank CourseRuleExpressionNodeType.or = 9
node_type_rank CourseRuleExpressionNodeType.permission_required = 10
node_type_rank CourseRuleExpressionNodeType.program_restriction = 11

-- (display_order, node_type.value, str(id))
unfoldable pub expression_leb : CourseRuleExpression → CourseRuleExpression → Bool
expression_leb x y =
    ltb x.display_order y.display_order
    || (x.display_order == y.display_order
        && (ltb (node_type_rank x.node_type) (node_type_rank y.node_type)
            || (node_type_rank x.node_type == node_type_rank y.node_type && leb x.id y.id)))

-- The expressions of the rules.
unfoldable pub load_expressions : List CourseRuleExpression → List Uuid → List CourseRuleExpression
load_expressions expressions rule_ids =
    filter_by (λ (e : CourseRuleExpression). any_by (λ id. id == e.course_rule_id) rule_ids)
      expressions

-- `roots`: of several roots of a rule, the last one.
unfoldable pub roots_from :
    Dict CourseRuleExpression → List CourseRuleExpression → Dict CourseRuleExpression
roots_from roots [] = roots
roots_from roots (e ∷ es) =
    roots_from (elim e.parent_id [ none ↦ assign e.course_rule_id e roots | some _ ↦ roots ]) es

unfoldable pub children_by_parent : List CourseRuleExpression → Dict (List CourseRuleExpression)
children_by_parent = group_by (λ (e : CourseRuleExpression). e.parent_id) expression_leb

-- The list that the recursion returns: its last entry, which is the one read from it, and the
-- entries before.
pub record TreeResult : Type 0 where
  pub below : List ExpressionEvaluationResult
  pub own : ExpressionEvaluationResult

abbrev pub entries : TreeResult → List ExpressionEvaluationResult
entries t = t.below ++ t.own ∷ []

abbrev pub is_operator : CourseRuleExpressionNodeType → Bool
is_operator CourseRuleExpressionNodeType.and = true
is_operator CourseRuleExpressionNodeType.or = true
is_operator CourseRuleExpressionNodeType.not = true
is_operator _ = false

abbrev pub own_result : TreeResult → EligibilityRuleResult
own_result t = t.own.result

unfoldable pub result_of : CourseRuleExpression → AttemptMatch → ExpressionEvaluationResult
result_of expression found = record {
  course_rule_expression_id = expression.id;
  node_type = expression.node_type;
  result = found.result;
  reason_code = found.reason_code;
  display_order = expression.display_order;
  matched_course_id = found.matched_course_id;
  matched_attempt_id = found.matched_attempt_id;
}

module _ (db : EligibilityTables) (policy : GradePolicy) where
  unfoldable pub match_expression :
      CourseRuleType
      → EligibilityRequestContext
      → CourseRuleExpression
      → List EligibilityRuleResult
      → AttemptMatch
  match_expression rule_type context expression results = elim (is_operator expression.node_type) [
    | true ↦ evaluate_operator expression results
    | false ↦ evaluate_leaf db policy expression rule_type context
  ]

  -- What follows the loop over the children.
  unfoldable pub tree_of :
      CourseRuleType
      → EligibilityRequestContext
      → CourseRuleExpression
      → List TreeResult
      → TreeResult
  tree_of rule_type context expression children = record {
    below = flat_map_by entries children;
    own =
        result_of expression
          (match_expression rule_type context expression (map own_result children));
  }

  unfoldable pub evaluate_expression_tree :
      ℕ
      → CourseRuleType
      → EligibilityRequestContext
      → Dict (List CourseRuleExpression)
      → CourseRuleExpression
      → Checked TreeResult
  evaluate_expression_tree zero rule_type context children expression = raise recursion_error
  evaluate_expression_tree (suc depth) rule_type context children expression = do
    trees ←
        each (evaluate_expression_tree depth rule_type context children)
          (get_list expression.id children)
    ok (tree_of rule_type context expression trees)
