-- ===== src/Eligibility/Evidence.antt =====
-- apps/api/app/services/course_state/engine.py: `active_course_state_snapshot` and
-- `effective_student_course_attempts`; and the tables that course_eligibility/engine.py reads.
use smart_academic_planning.Prelude.{
  Bool, true, false, not, ◌&&◌, ◌||◌, Option, none, some, List, [], ◌∷◌, ltb, leb, ◌==◌, filter_by,
  sorted,
}
use smart_academic_planning.DegreeAudit.Records.{
  Uuid, Course, StudentCourseAttempt, TransferCredit, is_mock, is_approved,
}
use smart_academic_planning.Eligibility.Records.{
  StudentProfile, AcademicTerm, Section, CourseRule, CourseRuleExpression, AcademicProgram,
  ProgramVersion, StudentAcademicProgram, CourseStateSnapshot,
}

-- The rows of each table. Those of the rules and of their expressions stand in the order in which
-- the queries ask for them.
pub record EligibilityTables : Type 0 where
  pub students : List StudentProfile
  pub courses : List Course
  pub terms : List AcademicTerm
  pub sections : List Section
  pub rules : List CourseRule
  pub expressions : List CourseRuleExpression
  pub attempts : List StudentCourseAttempt
  pub transfers : List TransferCredit
  pub student_programs : List StudentAcademicProgram
  pub program_versions : List ProgramVersion
  pub programs : List AcademicProgram
  pub snapshots : List CourseStateSnapshot

-- The first row of a query.
abbrev pub first_row {ℓ} : {A : Type ℓ} → List A → Option A
first_row [] = none
first_row (x ∷ xs) = some x

abbrev pub same_id : Option Uuid → Uuid → Bool
same_id none id = false
same_id (some k) id = k == id

abbrev pub is_none {ℓ} : {A : Type ℓ} → Option A → Bool
is_none none = true
is_none (some _) = false

-- The latest first, and of those the greatest id.
abbrev pub snapshot_leb : CourseStateSnapshot → CourseStateSnapshot → Bool
snapshot_leb x y = ltb y.applied_at x.applied_at || (x.applied_at == y.applied_at && leb y.id x.id)

unfoldable pub active_course_state_snapshot : EligibilityTables → Uuid → Option CourseStateSnapshot
active_course_state_snapshot db student_id = first_row (
    sorted snapshot_leb (
      filter_by (λ (s : CourseStateSnapshot). s.student_profile_id == student_id && s.is_active)
        db.snapshots))

-- Where a snapshot is active, its own attempts count, and those of no snapshot that are not mock.
unfoldable pub is_effective : Option CourseStateSnapshot → StudentCourseAttempt → Bool
is_effective none a = true
is_effective (some s) a =
    same_id a.course_state_snapshot_id s.id
    || (is_none a.course_state_snapshot_id && not (is_mock a.source_type))

abbrev pub attempt_leb : StudentCourseAttempt → StudentCourseAttempt → Bool
attempt_leb x y =
    ltb x.course_id y.course_id
    || (x.course_id == y.course_id
        && (ltb y.attempt_number x.attempt_number
            || (x.attempt_number == y.attempt_number && leb x.id y.id)))

-- Without `statuses`, which course_eligibility does not give.
unfoldable pub effective_student_course_attempts :
    EligibilityTables → Uuid → Option Uuid → List StudentCourseAttempt
effective_student_course_attempts db student_id course_id = sorted attempt_leb (
    filter_by
      (λ (a : StudentCourseAttempt).
        a.student_profile_id == student_id
        && (is_effective (active_course_state_snapshot db student_id) a
            && elim course_id [ none ↦ true | some id ↦ a.course_id == id ]))
      db.attempts)

abbrev pub approved_for : Uuid → TransferCredit → Bool
approved_for student_id t = t.student_profile_id == student_id && is_approved t.status

unfoldable pub approved_transfer : EligibilityTables → Uuid → Uuid → Option TransferCredit
approved_transfer db student_id course_id = first_row (
    sorted (λ (x y : TransferCredit). leb x.id y.id)
      (filter_by
        (λ (t : TransferCredit).
          approved_for student_id t && same_id t.equivalent_course_id course_id)
        db.transfers))
