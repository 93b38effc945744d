-- ===== src/Eligibility/Leaves/Courses.antt =====
-- engine.py: `evaluate_completed_course` and `evaluate_minimum_grade`.
use smart_academic_planning.Prelude.{
  Bool, true, false, ◌&&◌, ◌||◌, Option, none, some, List, [], ◌∷◌, Text, ltb, ◌==◌, if◌then◌else◌,
  filter_by, any_by,
}
use smart_academic_planning.DegreeAudit.Records.{
  Uuid, StudentCourseAttempt, in_progress, planned, is_completed_attempt,
}
use smart_academic_planning.DegreeAudit.Grades.{GradePolicy, satisfies_minimum, best_grade_key}
use smart_academic_planning.Eligibility.Records.{
  EligibilityMode, CourseRuleType, CourseRuleExpression, projected, registration, current,
  satisfied, conditionally_satisfied, not_satisfied, manual_review_required, corequisite,
}
use smart_academic_planning.Eligibility.Result.{
  AttemptMatch, ReasonCode, EligibilityRequestContext, match_of, match_course, match_attempt,
  completed_course_operand_missing, corequisite_completed, completed_course_satisfied,
  corequisite_transfer_satisfied, completed_course_transfer_satisfied, corequisite_in_progress,
  corequisite_concurrent_plan, completed_course_in_progress, corequisite_must_enroll,
  completed_course_missing, minimum_grade_operand_missing, minimum_grade_satisfied,
  minimum_grade_too_low, minimum_grade_pending, minimum_grade_missing, grade_warning,
}
use smart_academic_planning.Eligibility.Evidence.{
  EligibilityTables, first_row, is_none, effective_student_course_attempts, approved_transfer,
}

abbrev pub is_corequisite : CourseRuleType → Bool
is_corequisite corequisite = true
is_corequisite _ = false

abbrev pub is_in_progress : StudentCourseAttempt → Bool
is_in_progress a = elim a.status [ in_progress ↦ true | _ ↦ false ]

abbrev pub is_planned : StudentCourseAttempt → Bool
is_planned a = elim a.status [ planned ↦ true | _ ↦ false ]

-- `mode in {PROJECTED, REGISTRATION}`
abbrev pub looks_ahead : EligibilityMode → Bool
looks_ahead current = false
looks_ahead projected = true
looks_ahead registration = true

unfoldable pub course_attempts :
    EligibilityTables → EligibilityRequestContext → Uuid → List StudentCourseAttempt
course_attempts db context course_id =
    effective_student_course_attempts db context.student.id (some course_id)

-- A completed attempt whose grade counts.
unfoldable pub is_passed : GradePolicy → StudentCourseAttempt → Bool
is_passed policy a =
    is_completed_attempt a.status && (satisfies_minimum policy a.grade none).is_satisfied

abbrev pub may_be_conditional : CourseRuleType → StudentCourseAttempt → Bool
may_be_conditional rule_type a =
    (is_in_progress a && (is_none a.course_state_snapshot_id || is_corequisite rule_type))
    || (is_planned a && is_none a.course_state_snapshot_id)

unfoldable pub is_conditional : EligibilityMode → CourseRuleType → StudentCourseAttempt → Bool
is_conditional mode rule_type a = may_be_conditional rule_type a && looks_ahead mode

-- The first attempt that passes the test of a loop which returns at it.
unfoldable pub first_that :
    (StudentCourseAttempt → Bool) → List StudentCourseAttempt → Option StudentCourseAttempt
first_that test attempts = first_row (filter_by test attempts)

abbrev conditional_code : CourseRuleType → StudentCourseAttempt → ReasonCode
conditional_code rule_type a =
    if is_corequisite rule_type
    then if is_in_progress a then corequisite_in_progress else corequisite_concurrent_plan
    else completed_course_in_progress

-- The end of `evaluate_completed_course`, after its two loops.
unfoldable pub without_attempt : CourseRuleType → EligibilityRequestContext → Uuid → AttemptMatch
without_attempt rule_type context course_id =
    if is_corequisite rule_type && looks_ahead context.mode
    then if any_by (λ id. id == course_id) context.planned_corequisite_course_ids
      then match_course conditionally_satisfied corequisite_concurrent_plan course_id
      else match_course conditionally_satisfied corequisite_must_enroll course_id
    else match_course not_satisfied completed_course_missing course_id

unfoldable pub not_completed :
    List StudentCourseAttempt → CourseRuleType → EligibilityRequestContext → Uuid → AttemptMatch
not_completed attempts rule_type context course_id =
    elim (first_that (is_conditional context.mode rule_type) attempts) [
      | some a ↦ match_attempt conditionally_satisfied (conditional_code rule_type a) course_id a.id
      | none ↦ without_attempt rule_type context course_id
    ]

unfoldable pub without_completed :
    EligibilityTables
    → List StudentCourseAttempt
    → CourseRuleType
    → EligibilityRequestContext
    → Uuid
    → AttemptMatch
without_completed db attempts rule_type context course_id =
    elim (approved_transfer db context.student.id course_id) [
      | some t ↦
          match_course satisfied
            (if is_corequisite rule_type
              then corequisite_transfer_satisfied
              else completed_course_transfer_satisfied)
            course_id
      | none ↦ not_completed attempts rule_type context course_id
    ]

unfoldable pub completed_match :
    EligibilityTables
    → GradePolicy
    → CourseRuleType
    → EligibilityRequestContext
    → Uuid
    → AttemptMatch
completed_match db policy rule_type context course_id =
    let attempts = course_attempts db context course_id in
    elim (first_that (is_passed policy) attempts) [
      | some a ↦
          match_attempt satisfied
            (if is_corequisite rule_type then corequisite_completed else completed_course_satisfied)
            course_id a.id
      | none ↦ without_completed db attempts rule_type context course_id
    ]

unfoldable pub evaluate_completed_course :
    EligibilityTables
    → GradePolicy
    → CourseRuleExpression
    → CourseRuleType
    → EligibilityRequestContext
    → AttemptMatch
evaluate_completed_course db policy expression rule_type context =
    elim expression.referenced_course_id [
      | none ↦ match_of manual_review_required completed_course_operand_missing
      | some course_id ↦ completed_match db policy rule_type context course_id
    ]

-- `min(attempts, key=best_grade_key)`: the first of the least key.
unfoldable pub best_attempt : GradePolicy → List StudentCourseAttempt → Option StudentCourseAttempt
best_attempt policy [] = none
best_attempt policy (a ∷ attempts) = elim (best_attempt policy attempts) [
  | none ↦ some a
  | some b ↦
      some (if ltb (best_grade_key policy b.grade) (best_grade_key policy a.grade) then b else a)
]

-- The decision on the best completed attempt.
unfoldable pub graded_match : GradePolicy → Text → Uuid → StudentCourseAttempt → AttemptMatch
graded_match policy expected course_id a =
    let decision = satisfies_minimum policy a.grade (some expected) in
    if decision.is_satisfied
    then match_attempt satisfied minimum_grade_satisfied course_id a.id
    else elim decision.warning_code [
      | some code ↦ match_attempt manual_review_required (grade_warning code) course_id a.id
      | none ↦ match_attempt not_satisfied minimum_grade_too_low course_id a.id
    ]

unfoldable pub ungraded_match :
    List StudentCourseAttempt → CourseRuleType → EligibilityMode → Uuid → AttemptMatch
ungraded_match attempts rule_type mode course_id =
    elim (first_that (is_conditional mode rule_type) attempts) [
      | some a ↦ match_attempt conditionally_satisfied minimum_grade_pending course_id a.id
      | none ↦ match_course not_satisfied minimum_grade_missing course_id
    ]

unfoldable pub minimum_grade_match :
    EligibilityTables
    → GradePolicy
    → CourseRuleType
    → EligibilityRequestContext
    → Uuid
    → Text
    → AttemptMatch
minimum_grade_match db policy rule_type context course_id expected =
    let attempts = course_attempts db context course_id in
    elim (best_attempt policy (filter_by (is_passed policy) attempts)) [
      | some a ↦ graded_match policy expected course_id a
      | none ↦ ungraded_match attempts rule_type context.mode course_id
    ]

unfoldable pub evaluate_minimum_grade :
    EligibilityTables
    → GradePolicy
    → CourseRuleExpression
    → CourseRuleType
    → EligibilityRequestContext
    → AttemptMatch
evaluate_minimum_grade db policy expression rule_type context =
    elim expression.referenced_course_id [
      | none ↦ match_of manual_review_required minimum_grade_operand_missing
      | some course_id ↦ elim expression.minimum_grade [
        | none ↦ match_of manual_review_required minimum_grade_operand_missing
        | some expected ↦ minimum_grade_match db policy rule_type context course_id expected
      ]
    ]
