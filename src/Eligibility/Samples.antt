-- ===== src/Eligibility/Samples.antt =====
-- A course with one prerequisite, a student, and a request.
use smart_academic_planning.Prelude.{true, Option, none, some, [], ◌∷◌, codes}
use smart_academic_planning.DegreeAudit.Records.{
  Uuid, Course, StudentCourseAttempt, StudentCourseAttemptStatus, SourceType,
}
use smart_academic_planning.DegreeAudit.Grades.{GradePolicy, default_grade_order}
use smart_academic_planning.Eligibility.Records.{
  EligibilityMode, CourseRule, CourseRuleExpression, CourseRuleType, CourseRuleExpressionNodeType,
  StudentProfile, AcademicTerm,
}
use smart_academic_planning.Eligibility.Result.{EligibilityRequestContext}
use smart_academic_planning.Eligibility.Evidence.{EligibilityTables}
use smart_academic_planning.Eligibility.Engine.{EligibilityRequest}

abbrev pub a_course : Uuid → Course
a_course id = record { id = id; institution_id = 0; credits_min = 30; course_level = 100 }

abbrev pub a_student : StudentProfile
a_student = record {
  id = 1;
  home_institution_id = 0;
  home_campus_id = 0;
  class_standing = some (codes "Junior");
}

abbrev pub a_term : AcademicTerm
a_term = record { id = 20; institution_id = 0 }

abbrev pub an_attempt : StudentCourseAttemptStatus → StudentCourseAttempt
an_attempt status = record {
  id = 50;
  student_profile_id = 1;
  course_id = 11;
  attempt_number = 1;
  status = status;
  grade = some (codes "B");
  credits_attempted = 30;
  credits_earned = 30;
  source_type = SourceType.imported;
  course_state_snapshot_id = none;
}

abbrev pub a_rule : CourseRule
a_rule = record {
  id = 30;
  institution_id = 0;
  course_id = 10;
  section_id = none;
  rule_type = CourseRuleType.prerequisite;
  requires_manual_confirmation = true;
}

abbrev pub an_expression :
    Uuid → Option Uuid → CourseRuleExpressionNodeType → Option Uuid → CourseRuleExpression
an_expression id parent node_type course_id = record {
  id = id;
  course_rule_id = 30;
  parent_id = parent;
  node_type = node_type;
  display_order = 0;
  referenced_course_id = course_id;
  minimum_grade = none;
  minimum_completed_credits = none;
  class_standing = none;
  referenced_program_id = none;
  referenced_campus_id = none;
}

-- The last two expressions are each other's parent.
abbrev pub tables : EligibilityTables
tables = record {
  students = a_student ∷ [];
  courses = a_course 10 ∷ a_course 11 ∷ [];
  terms = a_term ∷ [];
  sections = [];
  rules = a_rule ∷ [];
  expressions =
      an_expression 40 none CourseRuleExpressionNodeType.and none
      ∷ an_expression 41 (some 40) CourseRuleExpressionNodeType.completed_course (some 11)
      ∷ an_expression 42 (some 43) CourseRuleExpressionNodeType.or none
      ∷ an_expression 43 (some 42) CourseRuleExpressionNodeType.or none
      ∷ [];
  attempts = an_attempt StudentCourseAttemptStatus.in_progress ∷ [];
  transfers = [];
  student_programs = [];
  program_versions = [];
  programs = [];
  snapshots = [];
}

abbrev pub grades : GradePolicy
grades = record { grade_order = default_grade_order }

abbrev pub a_request : EligibilityRequest
a_request = record {
  student_profile_id = 1;
  course_id = 10;
  section_id = none;
  target_term_id = 20;
  mode = EligibilityMode.current;
  planned_corequisite_course_ids = [];
}

abbrev pub a_context : EligibilityRequestContext
a_context = record {
  student = a_student;
  course = a_course 10;
  target_term = a_term;
  section = none;
  mode = EligibilityMode.current;
  planned_corequisite_course_ids = [];
}
