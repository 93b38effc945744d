-- ===== src/CourseRules/Tests.antt =====
-- The theorems on the validation of course rules, applied to small trees.
use smart_academic_planning.Prelude.{
  lookup, assign, append_to, none, some, List, [], ◌∷◌, filter_by, All, ◌≡◌, refl, arith,
}
use smart_academic_planning.Eligibility.Records.{
  CourseRuleType, CourseRuleExpression, CourseRuleExpressionNodeType,
}
use smart_academic_planning.Eligibility.Checked.{ok}
use smart_academic_planning.Eligibility.Tree.{
  TreeResult, children_by_parent, evaluate_expression_tree,
}
use smart_academic_planning.Eligibility.Tree.Arity.{TreeIsRolledUp}
use smart_academic_planning.Eligibility.Samples.{an_expression, tables, grades, a_context}
use smart_academic_planning.CourseRules.{
  is_root, first_failure, check_parent, check_children, check_count, children_of, check_visits,
  visit, visit_children, validate_from, validate_roots, validate_course_rule_expression_tree,
}
use smart_academic_planning.DegreeAudit.Index.{group_from}
use smart_academic_planning.Eligibility.Engine.{distinct_ids}
use smart_academic_planning.CourseRules.Failures.{
  IsStructural, validate_course_rule_expression_tree-IsStructural,
}
use smart_academic_planning.CourseRules.Arity.{accepted_tree-IsRolledUp}

abbrev two_courses : List CourseRuleExpression
two_courses =
    an_expression 40 none CourseRuleExpressionNodeType.and none
    ∷ an_expression 41 (some 40) CourseRuleExpressionNodeType.completed_course (some 11)
    ∷ an_expression 42 (some 40) CourseRuleExpressionNodeType.completed_course (some 12)
    ∷ []

two_courses-valid : validate_course_rule_expression_tree 3 two_courses ≡ none
unfolding validate_course_rule_expression_tree distinct_ids validate_roots validate_from
    first_failure check_parent check_children check_count children_of group_from append_to assign
    lookup check_visits visit visit_children
two_courses-valid = refl

validate_course_rule_expression_tree-IsStructural_example :
    IsStructural (validate_course_rule_expression_tree 3 two_courses)
validate_course_rule_expression_tree-IsStructural_example =
    validate_course_rule_expression_tree-IsStructural 3 two_courses (omega arith)

accepted_tree-IsRolledUp_example :
    All
      (λ (root : CourseRuleExpression).
        (t : TreeResult) × (evaluate_expression_tree tables grades 3 CourseRuleType.prerequisite
            a_context
            (children_by_parent two_courses)
            root
          ≡ ok t)
        × TreeIsRolledUp t)
      (filter_by is_root two_courses)
accepted_tree-IsRolledUp_example =
    accepted_tree-IsRolledUp tables grades CourseRuleType.prerequisite a_context two_courses 3
      two_courses-valid (omega arith)
