-- ===== src/Eligibility/Store.antt =====
-- engine.py: the rows that `CourseEligibilityApplicationService.create_check` adds. The new ids
-- of the rules' rows are given by a function of their number; the ids of the other rows, to which no
-- row refers, and that of the run are left out. A read of a missing key returns `none`.
-- The course, which is read again, is one that the evaluation has found.
pub mod Keys
pub mod Checks
use smart_academic_planning.Prelude.{
  ℕ, zero, suc, Bool, true, false, Option, none, some, List, [], ◌∷◌, ◌++◌, Dict, lookup, assign,
  flat_map_by, map,
}
use smart_academic_planning.DegreeAudit.Records.{Uuid}
use smart_academic_planning.Eligibility.Records.{
  EligibilityCheckStatus, EligibilityOverallResult, EligibilityRuleResult, CourseRuleType,
}
use smart_academic_planning.Eligibility.Result.{
  ReasonCode, ExpressionEvaluationResult, RuleEvaluationResult, EligibilityWarningResult,
  EligibilityResult,
}

pub record RuleEvaluation : Type 0 where
  pub id : Uuid
  pub course_rule_id : Uuid
  pub result : EligibilityRuleResult
  pub rule_type : CourseRuleType
  pub display_order : ℕ

pub record RuleExpressionEvaluation : Type 0 where
  pub rule_evaluation_id : Uuid
  pub course_rule_expression_id : Uuid
  pub result : EligibilityRuleResult
  pub matched_course_id : Option Uuid
  pub matched_attempt_id : Option Uuid
  pub reason_code : ReasonCode

-- The run with the rows that refer to it.
pub record StoredCheck : Type 0 where
  pub status : EligibilityCheckStatus
  pub overall_result : EligibilityOverallResult
  pub academic_eligibility_result : EligibilityOverallResult
  pub rule_evaluations : List RuleEvaluation
  pub expression_evaluations : List RuleExpressionEvaluation
  pub warnings : List EligibilityWarningResult

unfoldable pub check_status : List EligibilityWarningResult → EligibilityCheckStatus
check_status [] = EligibilityCheckStatus.completed
check_status (w ∷ ws) = EligibilityCheckStatus.completed_with_warnings

-- The loop over the rules, from the number of the row on.
unfoldable pub rule_rows : (ℕ → Uuid) → ℕ → List RuleEvaluationResult → List RuleEvaluation
rule_rows fresh i [] = []
rule_rows fresh i (r ∷ rs) =
    record {
      id = fresh i;
      course_rule_id = r.course_rule_id;
      result = r.result;
      rule_type = r.rule_type;
      display_order = r.display_order;
    }
    ∷ rule_rows fresh (suc i) rs

-- `rule_evaluation_ids`
unfoldable pub rule_ids_from : Dict Uuid → List RuleEvaluation → Dict Uuid
rule_ids_from ids [] = ids
rule_ids_from ids (row ∷ rows) = rule_ids_from (assign row.course_rule_id row.id ids) rows

-- The entries of one rule in `expression_to_rule_id`.
unfoldable pub note_expressions : Uuid → List ExpressionEvaluationResult → Dict Uuid → Dict Uuid
note_expressions rule_evaluation_id [] noted = noted
note_expressions rule_evaluation_id (e ∷ es) noted =
    note_expressions rule_evaluation_id es
      (assign e.course_rule_expression_id rule_evaluation_id noted)

-- `expression_to_rule_id`: the id of a rule is read for each of its expressions.
unfoldable pub expression_to_rule_id :
    Dict Uuid → List RuleEvaluationResult → Dict Uuid → Option (Dict Uuid)
expression_to_rule_id ids [] noted = some noted
expression_to_rule_id ids (r ∷ rs) noted = elim r.expressions [
  | [] ↦ expression_to_rule_id ids rs noted
  | e ∷ es ↦ elim (lookup r.course_rule_id ids) [
    | none ↦ none
    | some id ↦ expression_to_rule_id ids rs (note_expressions id (e ∷ es) noted)
  ]
]

abbrev pub expression_row : Uuid → ExpressionEvaluationResult → RuleExpressionEvaluation
expression_row rule_evaluation_id e = record {
  rule_evaluation_id = rule_evaluation_id;
  course_rule_expression_id = e.course_rule_expression_id;
  result = e.result;
  matched_course_id = e.matched_course_id;
  matched_attempt_id = e.matched_attempt_id;
  reason_code = e.reason_code;
}

-- The loop over the expressions.
unfoldable pub expression_rows :
    Dict Uuid → List ExpressionEvaluationResult → Option (List RuleExpressionEvaluation)
expression_rows rules [] = some []
expression_rows rules (e ∷ es) =
    let rest = expression_rows rules es in
    elim (lookup e.course_rule_expression_id rules) [
      | none ↦ none
      | some id ↦ elim rest [ none ↦ none | some rows ↦ some (expression_row id e ∷ rows) ]
    ]

abbrev pub check_of :
    EligibilityResult → List RuleEvaluation → List RuleExpressionEvaluation → StoredCheck
check_of r rows expressions = record {
  status = check_status r.warnings;
  overall_result = r.overall_result;
  academic_eligibility_result = r.academic_eligibility_result;
  rule_evaluations = rows;
  expression_evaluations = expressions;
  warnings = r.warnings;
}

unfoldable pub create_check : (ℕ → Uuid) → EligibilityResult → Option StoredCheck
create_check fresh r =
    let rows = rule_rows fresh 0 r.rule_evaluations in
    elim (expression_to_rule_id (rule_ids_from [] rows) r.rule_evaluations []) [
      | none ↦ none
      | some rules ↦ elim (expression_rows rules r.expression_evaluations) [
        | none ↦ none
        | some expressions ↦ some (check_of r rows expressions)
      ]
    ]
