-- ===== src/Eligibility/Engine/Scope.antt =====
-- engine.py: when `_build_context` returns.
use smart_academic_planning.Prelude.{ℕ, Option, none, some, ◌==◌, ==_iff, ◌≡◌, ◌↔◌}
use smart_academic_planning.DegreeAudit.Records.{Uuid, Course}
use smart_academic_planning.Eligibility.Records.{StudentProfile, AcademicTerm, Section}
use smart_academic_planning.Eligibility.Checked.{
  Checked, require, ◌>>◌, IsOk, bind-IsOk_iff, require-IsOk, require_some-IsOk,
}
use smart_academic_planning.Eligibility.Result.{ValidationCode}
use smart_academic_planning.Eligibility.Evidence.{EligibilityTables}
use smart_academic_planning.Eligibility.Engine.Request.{
  EligibilityRequest, get_student, get_course, get_term, get_section, check_section, build_context,
}

-- The section exists, and is one of the course in the term; or none is asked for.
abbrev pub SectionFits : EligibilityTables → Option Uuid → Course → AcademicTerm → Type 0
SectionFits db none course term = Unit
SectionFits db (some id) course term =
    (section : Section) × (get_section db id ≡ some section)
    × (section.course_id ≡ course.id)
    × (section.term_id ≡ term.id)

-- The rows exist, those of the student and the term belong to the course's institution, and the
-- section fits.
abbrev pub IsInScope : EligibilityTables → EligibilityRequest → Type 0
IsInScope db request =
    (student : StudentProfile) × (get_student db request.student_profile_id ≡ some student)
    × (course : Course) × (get_course db request.course_id ≡ some course)
    × (term : AcademicTerm) × (get_term db request.target_term_id ≡ some term)
    × (student.home_institution_id ≡ course.institution_id)
    × (term.institution_id ≡ course.institution_id)
    × SectionFits db request.section_id course term

require_eq-IsOk :
    (a b : ℕ) (code : ValidationCode) {B : Type 0} (m : Checked B)
    → IsOk (require (a == b) code >> m) ↔ ((a ≡ b) × IsOk m)
require_eq-IsOk a b code m =
    let test = require-IsOk (a == b) code m in
    let same = ==_iff a b in
    (λ h. (same.0 (test.0 h).0, (test.0 h).1), λ h. test.1 (same.1 h.0, h.1))

check_section-IsOk :
    (db : EligibilityTables) (id : Option Uuid) (course : Course) (term : AcademicTerm)
    → IsOk (check_section db id course term) ↔ SectionFits db id course term
unfolding check_section
check_section-IsOk db none course term = (λ h. tt, λ h. tt)
check_section-IsOk db (some id) course term = (
  λ h.
      let found = (require_some-IsOk (get_section db id) _ _).0 h in
      let here = (require_eq-IsOk found.0.course_id course.id _ _).0 found.2 in
      let then = (require_eq-IsOk found.0.term_id term.id _ _).0 here.1 in
      (found.0, found.1, here.0, then.0),
  λ h. (require_some-IsOk (get_section db id) _ _).1 (
    h.0,
    h.1,
    (require_eq-IsOk h.0.course_id course.id _ _).1
        (h.2, (require_eq-IsOk h.0.term_id term.id _ _).1 (h.3, tt)),
  ),
)

-- The context is built exactly if the request is in scope.
pub build_context-IsOk :
    (db : EligibilityTables) (request : EligibilityRequest)
    → IsOk (build_context db request) ↔ IsInScope db request
unfolding build_context
build_context-IsOk db request = (
  λ h.
      let student = (require_some-IsOk (get_student db request.student_profile_id) _ _).0 h in
      let course = (require_some-IsOk (get_course db request.course_id) _ _).0 student.2 in
      let term = (require_some-IsOk (get_term db request.target_term_id) _ _).0 course.2 in
      let home =
        (require_eq-IsOk student.0.home_institution_id course.0.institution_id _ _).0 term.2 in
      let place = (require_eq-IsOk term.0.institution_id course.0.institution_id _ _).0 home.1 in
      let section =
        (bind-IsOk_iff (check_section db request.section_id course.0 term.0) _ (λ s. tt)).0
          place.1 in
      (
        student.0,
        student.1,
        course.0,
        course.1,
        term.0,
        term.1,
        home.0,
        place.0,
        (check_section-IsOk db request.section_id course.0 term.0).0 section,
      ),
  λ (student, e, course, f, term, g, home, place, fits).
      (require_some-IsOk (get_student db request.student_profile_id) _ _).1 (
        student,
        e,
        (require_some-IsOk (get_course db request.course_id) _ _).1 (
          course,
          f,
          (require_some-IsOk (get_term db request.target_term_id) _ _).1 (
            term,
            g,
            (require_eq-IsOk student.home_institution_id course.institution_id _ _).1 (
              home,
              (require_eq-IsOk term.institution_id course.institution_id _ _).1 (
                place,
                (bind-IsOk_iff (check_section db request.section_id course term) _ (λ s. tt)).1
                    ((check_section-IsOk db request.section_id course term).1 fits),
              ),
            ),
          ),
        ),
      ),
)
