-- ===== src/Eligibility/Records.antt =====
-- apps/api/app/models/academic.py: the enumerations and rows of the course rules, and those of the
-- students that a rule refers to, with the columns that course_eligibility uses.
use smart_academic_planning.Prelude.{ℕ, Bool, Option, Text}
use smart_academic_planning.DegreeAudit.Records.{Uuid, Credits}

pub data EligibilityMode : Type 0 where
  current projected registration : EligibilityMode

pub data EligibilityCheckStatus : Type 0 where
  pending running completed failed completed_with_warnings : EligibilityCheckStatus

pub data EligibilityOverallResult : Type 0 where
  eligible conditionally_eligible not_eligible : EligibilityOverallResult
  permission_required manual_review_required unknown : EligibilityOverallResult

pub data EligibilityRuleResult : Type 0 where
  satisfied conditionally_satisfied not_satisfied : EligibilityRuleResult
  permission_required manual_review_required not_applicable : EligibilityRuleResult

pub data CourseRuleType : Type 0 where
  prerequisite corequisite registration_restriction : CourseRuleType
  repeat_restriction permission : CourseRuleType

pub data CourseRuleExpressionNodeType : Type 0 where
  and or not completed_course minimum_grade : CourseRuleExpressionNodeType
  minimum_completed_credits class_standing major_restriction : CourseRuleExpressionNodeType
  minor_restriction program_restriction campus_restriction : CourseRuleExpressionNodeType
  permission_required : CourseRuleExpressionNodeType

pub data SectionStatus : Type 0 where
  planned open_ closed waitlist cancelled completed unknown : SectionStatus

pub data ProgramType : Type 0 where
  major minor certificate concentration : ProgramType

pub data StudentAcademicProgramStatus : Type 0 where
  active inactive completed : StudentAcademicProgramStatus

pub record StudentProfile : Type 0 where
  pub id : Uuid
  pub home_institution_id : Uuid
  pub home_campus_id : Uuid
  pub class_standing : Option Text

pub record AcademicTerm : Type 0 where
  pub id : Uuid
  pub institution_id : Uuid

pub record Section : Type 0 where
  pub id : Uuid
  pub course_id : Uuid
  pub term_id : Uuid
  pub status : SectionStatus
  pub available_seats : Option ℕ
  pub waitlist_available : Option ℕ

pub record CourseRule : Type 0 where
  pub id : Uuid
  pub institution_id : Uuid
  pub course_id : Uuid
  pub section_id : Option Uuid
  pub rule_type : CourseRuleType
  pub requires_manual_confirmation : Bool

pub record CourseRuleExpression : Type 0 where
  pub id : Uuid
  pub course_rule_id : Uuid
  pub parent_id : Option Uuid
  pub node_type : CourseRuleExpressionNodeType
  pub display_order : ℕ
  pub referenced_course_id : Option Uuid
  pub minimum_grade : Option Text
  pub minimum_completed_credits : Option Credits
  pub class_standing : Option Text
  pub referenced_program_id : Option Uuid
  pub referenced_campus_id : Option Uuid

pub record AcademicProgram : Type 0 where
  pub id : Uuid
  pub program_type : ProgramType

pub record ProgramVersion : Type 0 where
  pub id : Uuid
  pub program_id : Uuid

pub record StudentAcademicProgram : Type 0 where
  pub student_profile_id : Uuid
  pub program_version_id : Uuid
  pub status : StudentAcademicProgramStatus

-- `applied_at` counts from some start of time.
pub record CourseStateSnapshot : Type 0 where
  pub id : Uuid
  pub student_profile_id : Uuid
  pub is_active : Bool
  pub applied_at : ℕ
