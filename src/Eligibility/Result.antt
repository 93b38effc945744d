-- ===== src/Eligibility/Result.antt =====
-- result.py and exceptions.py of course_eligibility, and the records of engine.py. The fields of
-- display text (`explanation`, `message`, `actual_value`, `expected_value`) are left out, and so are
-- those that only reviewed rule sets fill; a reason's or a warning's code is a constructor.
use smart_academic_planning.Prelude.{ℕ, Bool, Option, none, some, List}
use smart_academic_planning.DegreeAudit.Records.{Uuid, Course, AuditWarningSeverity}
use smart_academic_planning.DegreeAudit.Result.{WarningCode}
use smart_academic_planning.Eligibility.Records.{
  EligibilityMode, EligibilityOverallResult, EligibilityRuleResult, CourseRuleType,
  CourseRuleExpressionNodeType, SectionStatus, StudentProfile, AcademicTerm, Section,
}

pub data ReasonCode : Type 0 where
  unsupported_rule_expression : ReasonCode
  empty_and_expression and_rollup empty_or_expression or_rollup : ReasonCode
  invalid_not_expression not_rollup : ReasonCode
  completed_course_operand_missing corequisite_completed completed_course_satisfied : ReasonCode
  corequisite_transfer_satisfied completed_course_transfer_satisfied : ReasonCode
  corequisite_in_progress corequisite_concurrent_plan completed_course_in_progress : ReasonCode
  corequisite_must_enroll completed_course_missing : ReasonCode
  minimum_grade_operand_missing minimum_grade_satisfied minimum_grade_too_low : ReasonCode
  minimum_grade_pending minimum_grade_missing : ReasonCode
  grade_warning : WarningCode → ReasonCode
  minimum_credits_operand_missing minimum_credits_satisfied : ReasonCode
  minimum_credits_projected minimum_credits_missing : ReasonCode
  class_standing_unavailable class_standing_unknown class_standing_satisfied : ReasonCode
  class_standing_too_low : ReasonCode
  program_restriction_operand_missing program_restriction_satisfied : ReasonCode
  program_restriction_not_met : ReasonCode
  campus_restriction_operand_missing campus_restriction_satisfied : ReasonCode
  campus_restriction_review permission_required : ReasonCode

pub data EligibilityWarningCode : Type 0 where
  real_restriction_rules_missing no_stored_restrictions rule_tree_missing : EligibilityWarningCode
  rule_requires_manual_confirmation imported_course_state_advisory : EligibilityWarningCode
  mock_eligibility_estimate : EligibilityWarningCode

-- The `code` of a CourseEligibilityValidationError.
pub data ValidationCode : Type 0 where
  not_found institution_scope_mismatch section_course_mismatch : ValidationCode
  section_term_mismatch : ValidationCode

-- What a call raises: the validation error, or Python's RecursionError.
pub data EligibilityFailure : Type 0 where
  validation_error : ValidationCode → EligibilityFailure
  recursion_error : EligibilityFailure

pub record AttemptMatch : Type 0 where
  pub result : EligibilityRuleResult
  pub reason_code : ReasonCode
  pub matched_course_id : Option Uuid
  pub matched_attempt_id : Option Uuid

-- `AttemptMatch(result, reason_code, explanation)`
abbrev pub match_of : EligibilityRuleResult → ReasonCode → AttemptMatch
match_of result code = record {
  result = result;
  reason_code = code;
  matched_course_id = none;
  matched_attempt_id = none;
}

-- The same with `matched_course_id`, and with both ids.
abbrev pub match_course : EligibilityRuleResult → ReasonCode → Uuid → AttemptMatch
match_course result code course_id = record {
  result = result;
  reason_code = code;
  matched_course_id = some course_id;
  matched_attempt_id = none;
}

abbrev pub match_attempt : EligibilityRuleResult → ReasonCode → Uuid → Uuid → AttemptMatch
match_attempt result code course_id attempt_id = record {
  result = result;
  reason_code = code;
  matched_course_id = some course_id;
  matched_attempt_id = some attempt_id;
}

pub record EligibilityRequestContext : Type 0 where
  pub student : StudentProfile
  pub course : Course
  pub target_term : AcademicTerm
  pub section : Option Section
  pub mode : EligibilityMode
  pub planned_corequisite_course_ids : List Uuid

pub record ExpressionEvaluationResult : Type 0 where
  pub course_rule_expression_id : Uuid
  pub node_type : CourseRuleExpressionNodeType
  pub result : EligibilityRuleResult
  pub reason_code : ReasonCode
  pub display_order : ℕ
  pub matched_course_id : Option Uuid
  pub matched_attempt_id : Option Uuid

pub record RuleEvaluationResult : Type 0 where
  pub course_rule_id : Uuid
  pub rule_type : CourseRuleType
  pub result : EligibilityRuleResult
  pub display_order : ℕ
  pub expressions : List ExpressionEvaluationResult

pub record EligibilityReason : Type 0 where
  pub reason_code : ReasonCode
  pub course_rule_expression_id : Uuid
  pub referenced_entity_id : Option Uuid

pub record CorequisiteSummary : Type 0 where
  pub required_corequisite_courses : List Uuid
  pub already_completed : List Uuid
  pub currently_in_progress : List Uuid
  pub must_enroll_concurrently : List Uuid

pub record RegistrationAvailability : Type 0 where
  pub section_status : SectionStatus
  pub available_seats : Option ℕ
  pub waitlist_available : Option ℕ

pub record EligibilityWarningResult : Type 0 where
  pub warning_code : EligibilityWarningCode
  pub severity : AuditWarningSeverity
  pub requires_advisor_confirmation : Bool

pub record EligibilityResult : Type 0 where
  pub overall_result : EligibilityOverallResult
  pub academic_eligibility_result : EligibilityOverallResult
  pub rule_evaluations : List RuleEvaluationResult
  pub expression_evaluations : List ExpressionEvaluationResult
  pub blocking_reasons : List EligibilityReason
  pub conditional_reasons : List EligibilityReason
  pub permissions_required : List EligibilityReason
  pub manual_review_reasons : List EligibilityReason
  pub corequisites_to_add : List Uuid
  pub corequisite_summary : Option CorequisiteSummary
  pub registration_availability : Option RegistrationAvailability
  pub warnings : List EligibilityWarningResult
