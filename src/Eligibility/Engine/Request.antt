-- ===== src/Eligibility/Engine/Request.antt =====
-- engine.py: the arguments of `evaluate`, `_build_context` and `_load_rules`.
use smart_academic_planning.Prelude.{
  Bool, false, ◌&&◌, ◌||◌, Option, none, some, List, ◌==◌, filter_by,
}
use smart_academic_planning.DegreeAudit.Records.{Uuid, Course}
use smart_academic_planning.Eligibility.Records.{
  EligibilityMode, StudentProfile, AcademicTerm, Section, CourseRule,
}
use smart_academic_planning.Eligibility.Result.{
  EligibilityRequestContext, not_found, institution_scope_mismatch, section_course_mismatch,
  section_term_mismatch,
}
use smart_academic_planning.Eligibility.Checked.{Checked, ok, ◌>>=◌, ◌>>◌, require, require_some}
use smart_academic_planning.Eligibility.Evidence.{EligibilityTables, first_row, same_id, is_none}

pub record EligibilityRequest : Type 0 where
  pub student_profile_id : Uuid
  pub course_id : Uuid
  pub section_id : Option Uuid
  pub target_term_id : Uuid
  pub mode : EligibilityMode
  pub planned_corequisite_course_ids : List Uuid

-- `db.get(Table, id)`
unfoldable pub get_row : {A : Type 0} → (A → Uuid) → List A → Uuid → Option A
get_row key rows id = first_row (filter_by (λ row. key row == id) rows)

abbrev pub get_student : EligibilityTables → Uuid → Option StudentProfile
get_student db = get_row (λ (s : StudentProfile). s.id) db.students

abbrev pub get_course : EligibilityTables → Uuid → Option Course
get_course db = get_row (λ (c : Course). c.id) db.courses

abbrev pub get_term : EligibilityTables → Uuid → Option AcademicTerm
get_term db = get_row (λ (t : AcademicTerm). t.id) db.terms

abbrev pub get_section : EligibilityTables → Uuid → Option Section
get_section db = get_row (λ (s : Section). s.id) db.sections

-- The section that is asked for, and its three tests.
unfoldable pub check_section :
    EligibilityTables → Option Uuid → Course → AcademicTerm → Checked (Option Section)
check_section db none course term = ok none
check_section db (some section_id) course term = do
  section ← require_some (get_section db section_id) not_found
  require (section.course_id == course.id) section_course_mismatch
  require (section.term_id == term.id) section_term_mismatch
  ok (some section)

unfoldable pub build_context :
    EligibilityTables → EligibilityRequest → Checked EligibilityRequestContext
build_context db request = do
  student ← require_some (get_student db request.student_profile_id) not_found
  course ← require_some (get_course db request.course_id) not_found
  term ← require_some (get_term db request.target_term_id) not_found
  require (student.home_institution_id == course.institution_id) institution_scope_mismatch
  require (term.institution_id == course.institution_id) institution_scope_mismatch
  section ← check_section db request.section_id course term
  ok (record {
    student = student;
    course = course;
    target_term = term;
    section = section;
    mode = request.mode;
    planned_corequisite_course_ids = request.planned_corequisite_course_ids;
  })

abbrev pub in_section : Option Section → CourseRule → Bool
in_section section rule =
    is_none rule.section_id || elim section [ none ↦ false | some s ↦ same_id rule.section_id s.id ]

unfoldable pub load_rules : EligibilityTables → EligibilityRequestContext → List CourseRule
load_rules db context =
    filter_by
      (λ (rule : CourseRule).
        rule.course_id == context.course.id
        && (rule.institution_id == context.course.institution_id
            && in_section context.section rule))
      db.rules
