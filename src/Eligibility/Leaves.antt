-- ===== src/Eligibility/Leaves.antt =====
-- engine.py: the evaluators of the leaves, `EvaluatorRegistry` and its registrations.
pub mod Courses
pub mod Student
pub mod Modes
pub mod Potential
unfoldable pub use Courses.*
unfoldable pub use Student.*
use smart_academic_planning.Prelude.{none}
use smart_academic_planning.DegreeAudit.Grades.{GradePolicy}
use smart_academic_planning.Eligibility.Records.{
  EligibilityRuleResult, CourseRuleType, CourseRuleExpression, CourseRuleExpressionNodeType,
}
use smart_academic_planning.Eligibility.Result.{
  AttemptMatch, ReasonCode, EligibilityRequestContext, match_of,
}
use smart_academic_planning.Eligibility.Evidence.{EligibilityTables}

-- `registry.evaluate`: the operators have no evaluator, and are never looked up.
unfoldable pub evaluate_leaf :
    EligibilityTables
    → GradePolicy
    → CourseRuleExpression
    → CourseRuleType
    → EligibilityRequestContext
    → AttemptMatch
evaluate_leaf db policy expression rule_type context = elim expression.node_type [
  | CourseRuleExpressionNodeType.completed_course ↦
      evaluate_completed_course db policy expression rule_type context
  | CourseRuleExpressionNodeType.minimum_grade ↦
      evaluate_minimum_grade db policy expression rule_type context
  | CourseRuleExpressionNodeType.minimum_completed_credits ↦
      evaluate_minimum_completed_credits db expression context
  | CourseRuleExpressionNodeType.class_standing ↦ evaluate_class_standing expression context
  | CourseRuleExpressionNodeType.major_restriction ↦
      evaluate_program_restriction db expression rule_type context
  | CourseRuleExpressionNodeType.minor_restriction ↦
      evaluate_program_restriction db expression rule_type context
  | CourseRuleExpressionNodeType.program_restriction ↦
      evaluate_program_restriction db expression rule_type context
  | CourseRuleExpressionNodeType.campus_restriction ↦ evaluate_campus_restriction expression context
  | CourseRuleExpressionNodeType.permission_required ↦ evaluate_permission_required
  | _ ↦ match_of EligibilityRuleResult.manual_review_required ReasonCode.unsupported_rule_expression
]
