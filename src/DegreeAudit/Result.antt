-- ===== src/DegreeAudit/Result.antt =====
-- apps/api/app/services/degree_audit/result.py and the `SourceKey` of allocator.py. The fields that
-- hold prose (`message`, `explanation`) are left out; a warning's code is a constructor.
use smart_academic_planning.Prelude.{ℕ, Bool, true, false, ◌&&◌, Option, List, Text, ◌==◌}
use smart_academic_planning.DegreeAudit.Records.{
  Uuid, Credits, RequirementType, RequirementEvaluationStatus, AuditApplicationType,
  AuditWarningSeverity, AuditRunStatus, AuditMode,
}

-- The first component of a source key: "attempt", "transfer", "waiver" or "substitution".
pub data SourceKind : Type 0 where
  attempt transfer waiver substitution : SourceKind

abbrev pub SourceKey : Type 0
SourceKey = SourceKind × Uuid

abbrev pub kind_eq : SourceKind → SourceKind → Bool
kind_eq attempt attempt = true
kind_eq transfer transfer = true
kind_eq waiver waiver = true
kind_eq substitution substitution = true
kind_eq _ _ = false

abbrev pub source_eq : SourceKey → SourceKey → Bool
source_eq (k, i) (l, j) = kind_eq k l && i == j

pub data WarningCode : Type 0 where
  requirement_configuration_incomplete unsupported_requirement_scope : WarningCode
  unknown_grade incomplete_grade pass_fail_minimum_grade_review unknown_minimum_grade : WarningCode
  incomplete_attempt transfer_without_equivalency : WarningCode
  pending_transfer pending_waiver pending_substitution : WarningCode
  reviewed_rule_mapping_requires_review reviewed_rule_conflict : WarningCode
  active_non_official_course_state_snapshot source_bounded_or_truncated : WarningCode
  repeat_policy_ambiguity : WarningCode

pub record AuditWarningResult : Type 0 where
  pub warning_code : WarningCode
  pub severity : AuditWarningSeverity
  pub requires_advisor_confirmation : Bool
  pub requirement_node_id : Option Uuid

pub record CourseApplicationResult : Type 0 where
  pub requirement_node_id : Uuid
  pub application_type : AuditApplicationType
  pub credit_amount : Credits
  pub is_completed : Bool
  pub is_in_progress : Bool
  pub is_planned : Bool
  pub is_shared : Bool
  pub course_id : Option Uuid
  pub student_course_attempt_id : Option Uuid
  pub transfer_credit_id : Option Uuid
  pub course_waiver_id : Option Uuid
  pub course_substitution_id : Option Uuid
  pub grade : Option Text

pub record RequirementResult : Type 0 where
  pub requirement_node_id : Uuid
  pub requirement_code : Text
  pub requirement_name : Text
  pub requirement_type : RequirementType
  pub status : RequirementEvaluationStatus
  pub required_credits : Option Credits
  pub satisfied_credits : Credits
  pub remaining_credits : Credits
  pub required_courses : Option ℕ
  pub satisfied_courses : ℕ
  pub remaining_courses : ℕ
  pub minimum_grade : Option Text
  pub display_order : ℕ
  pub applications : List CourseApplicationResult
  pub warnings : List AuditWarningResult

-- The percentage is in hundredths of a percent.
pub record DegreeAuditResult : Type 0 where
  pub student_profile_id : Uuid
  pub program_version_id : Uuid
  pub status : AuditRunStatus
  pub calculation_mode : AuditMode
  pub total_required_credits : Credits
  pub completed_credits : Credits
  pub in_progress_credits : Credits
  pub planned_credits : Credits
  pub remaining_credits : Credits
  pub completion_percentage : ℕ
  pub requirements : List RequirementResult
  pub warnings : List AuditWarningResult
