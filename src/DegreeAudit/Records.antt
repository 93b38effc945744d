-- ===== src/DegreeAudit/Records.antt =====
-- apps/api/app/models/academic.py: the enumerations and the rows that a degree audit reads, with
-- the columns that the services use. A UUID is its 128-bit number, whose order is also the order of its
-- canonical text. Credits are counted in units of 10⁻²⁰ and not negative: the columns are
-- Numeric(4, 1) or Numeric(5, 1) with check constraints, but the minimum credits of a node may be
-- those of a reviewed rule, any positive Decimal.
use smart_academic_planning.Prelude.{ℕ, Bool, true, false, Option, Text}

abbrev pub Uuid : Type 0
Uuid = ℕ

abbrev pub Credits : Type 0
Credits = ℕ

pub data RequirementType : Type 0 where
  group required_course all_of any_of choose_n minimum_credits minimum_courses : RequirementType
  minimum_grade course_level residency total_credits capstone exclusion : RequirementType

pub data StudentCourseAttemptStatus : Type 0 where
  completed in_progress planned failed withdrawn incomplete : StudentCourseAttemptStatus
  transferred : StudentCourseAttemptStatus

pub data ApprovalStatus : Type 0 where
  pending approved rejected : ApprovalStatus

pub data AuditRunStatus : Type 0 where
  pending running completed failed completed_with_warnings : AuditRunStatus

pub data AuditMode : Type 0 where
  current projected : AuditMode

pub data RequirementEvaluationStatus : Type 0 where
  satisfied in_progress planned partially_satisfied not_satisfied waived :
      RequirementEvaluationStatus
  manual_review_required not_applicable : RequirementEvaluationStatus

pub data AuditApplicationType : Type 0 where
  course_attempt transfer_credit waiver substitution equivalency : AuditApplicationType

pub data AuditWarningSeverity : Type 0 where
  info warning error : AuditWarningSeverity

pub data SourceType : Type 0 where
  mock official imported browser_extension student_provided inferred : SourceType

pub record Course : Type 0 where
  pub id : Uuid
  pub institution_id : Uuid
  pub credits_min : Credits
  pub course_level : ℕ

pub record RequirementNode : Type 0 where
  pub id : Uuid
  pub parent_id : Option Uuid
  pub code : Text
  pub name : Text
  pub requirement_type : RequirementType
  pub display_order : ℕ
  pub minimum_credits : Option Credits
  pub minimum_courses : Option ℕ
  pub choose_n : Option ℕ
  pub minimum_grade : Option Text
  pub minimum_course_level : Option ℕ
  pub minimum_residency_credits : Option Credits
  pub allows_overlap : Bool

pub record RequirementCourseOption : Type 0 where
  pub requirement_node_id : Uuid
  pub course_id : Uuid
  pub display_order : ℕ
  pub minimum_grade : Option Text
  pub credits_override : Option Credits

pub record StudentCourseAttempt : Type 0 where
  pub id : Uuid
  pub student_profile_id : Uuid
  pub course_id : Uuid
  pub attempt_number : ℕ
  pub status : StudentCourseAttemptStatus
  pub grade : Option Text
  pub credits_attempted : Credits
  pub credits_earned : Credits
  pub source_type : SourceType
  pub course_state_snapshot_id : Option Uuid

pub record TransferCredit : Type 0 where
  pub id : Uuid
  pub student_profile_id : Uuid
  pub equivalent_course_id : Option Uuid
  pub credits_earned : Credits
  pub grade : Option Text
  pub status : ApprovalStatus
  pub source_type : SourceType

pub record CourseWaiver : Type 0 where
  pub id : Uuid
  pub requirement_node_id : Option Uuid
  pub status : ApprovalStatus
  pub source_type : SourceType

pub record CourseSubstitution : Type 0 where
  pub id : Uuid
  pub requirement_node_id : Option Uuid
  pub original_course_id : Uuid
  pub substitute_course_id : Uuid
  pub status : ApprovalStatus
  pub source_type : SourceType

pub record CourseEquivalency : Type 0 where
  pub id : Uuid
  pub source_course_id : Uuid
  pub equivalent_course_id : Uuid

abbrev pub is_approved : ApprovalStatus → Bool
is_approved ApprovalStatus.approved = true
is_approved _ = false

abbrev pub is_pending : ApprovalStatus → Bool
is_pending ApprovalStatus.pending = true
is_pending _ = false

abbrev pub is_completed_attempt : StudentCourseAttemptStatus → Bool
is_completed_attempt StudentCourseAttemptStatus.completed = true
is_completed_attempt _ = false

abbrev pub is_mock : SourceType → Bool
is_mock SourceType.mock = true
is_mock _ = false
