-- ===== src/Eligibility/Leaves/Student.antt =====
-- engine.py: `evaluate_minimum_completed_credits`, `evaluate_class_standing`,
-- `evaluate_program_restriction`, `evaluate_campus_restriction`, `evaluate_permission_required`.
use smart_academic_planning.Prelude.{
  ℕ, ◌+◌, Bool, true, false, not, ◌&&◌, ◌||◌, Option, none, some, List, [], ◌∷◌, Text, codes,
  text_eq, upper, leb, ◌==◌, if◌then◌else◌, filter_by, any_by,
}
use smart_academic_planning.DegreeAudit.Records.{
  Uuid, Credits, StudentCourseAttempt, TransferCredit, is_completed_attempt,
}
use smart_academic_planning.Eligibility.Records.{
  EligibilityRuleResult, CourseRuleType, CourseRuleExpression, CourseRuleExpressionNodeType,
  ProgramType, AcademicProgram, ProgramVersion, StudentAcademicProgram,
  StudentAcademicProgramStatus, satisfied, conditionally_satisfied, not_satisfied,
  manual_review_required, registration_restriction, major, minor, certificate, concentration,
}
use smart_academic_planning.Eligibility.Result.{
  AttemptMatch, ReasonCode, EligibilityRequestContext, match_of, match_course,
  minimum_credits_operand_missing, minimum_credits_satisfied, minimum_credits_projected,
  minimum_credits_missing, class_standing_unavailable, class_standing_unknown,
  class_standing_satisfied, class_standing_too_low, program_restriction_operand_missing,
  program_restriction_satisfied, program_restriction_not_met, campus_restriction_operand_missing,
  campus_restriction_satisfied, campus_restriction_review,
}
use smart_academic_planning.Eligibility.Evidence.{
  EligibilityTables, is_none, approved_for, effective_student_course_attempts,
}
use smart_academic_planning.Eligibility.Leaves.Courses.{is_in_progress, is_planned, looks_ahead}

-- The variables of `evaluate_minimum_completed_credits`.
pub record CreditCount : Type 0 where
  pub earned : Credits
  pub potential : Credits
  pub seen_courses : List Uuid

abbrev pub is_seen_course : CreditCount → Uuid → Bool
is_seen_course count id = any_by (λ seen. seen == id) count.seen_courses

-- The body of the loop over the attempts.
unfoldable pub count_attempt : StudentCourseAttempt → CreditCount → CreditCount
count_attempt a count =
    if is_completed_attempt a.status && not (is_seen_course count a.course_id)
    then record count {
      earned = count.earned + a.credits_earned;
      seen_courses = a.course_id ∷ count.seen_courses;
    }
    else if is_none a.course_state_snapshot_id && (is_in_progress a || is_planned a)
    then record count { potential = count.potential + a.credits_attempted }
    else count

-- The body of the loop over the approved transfers.
unfoldable pub count_transfer : TransferCredit → CreditCount → CreditCount
count_transfer t count = elim t.equivalent_course_id [
  | none ↦ record count { earned = count.earned + t.credits_earned }
  | some id ↦ if is_seen_course count id then count else record count {
    earned = count.earned + t.credits_earned;
    seen_courses = id ∷ count.seen_courses;
  }
]

unfoldable pub count_attempts : List StudentCourseAttempt → CreditCount → CreditCount
count_attempts [] count = count
count_attempts (a ∷ attempts) count = count_attempts attempts (count_attempt a count)

unfoldable pub count_transfers : List TransferCredit → CreditCount → CreditCount
count_transfers [] count = count
count_transfers (t ∷ transfers) count = count_transfers transfers (count_transfer t count)

abbrev pub no_count : CreditCount
no_count = record { earned = 0; potential = 0; seen_courses = [] }

unfoldable pub count_credits : EligibilityTables → Uuid → CreditCount
count_credits db student_id =
    count_transfers (filter_by (approved_for student_id) db.transfers)
      (count_attempts (effective_student_course_attempts db student_id none) no_count)

unfoldable pub credits_match : Credits → CreditCount → Bool → AttemptMatch
credits_match required count ahead =
    if leb required count.earned
    then match_of satisfied minimum_credits_satisfied
    else if ahead && leb required (count.earned + count.potential)
    then match_of conditionally_satisfied minimum_credits_projected
    else match_of not_satisfied minimum_credits_missing

unfoldable pub evaluate_minimum_completed_credits :
    EligibilityTables → CourseRuleExpression → EligibilityRequestContext → AttemptMatch
evaluate_minimum_completed_credits db expression context =
    elim expression.minimum_completed_credits [
      | none ↦ match_of manual_review_required minimum_credits_operand_missing
      | some required ↦
          credits_match required (count_credits db context.student.id) (looks_ahead context.mode)
    ]

abbrev pub standing_from : List (Text × ℕ) → Text → Option ℕ
standing_from [] text = none
standing_from ((name, rank) ∷ rest) text =
    if text_eq name text then some rank else standing_from rest text

-- `standings.get(text.upper())`
abbrev pub standing_rank : Text → Option ℕ
standing_rank text =
    standing_from
      ((codes "FRESHMAN", 1)
        ∷ (codes "SOPHOMORE", 2)
        ∷ (codes "JUNIOR", 3)
        ∷ (codes "SENIOR", 4)
        ∷ (codes "GRADUATE", 5)
        ∷ [])
      (upper text)

unfoldable pub standing_match : Option ℕ → Option ℕ → AttemptMatch
standing_match (some actual) (some expected) =
    if leb expected actual
    then match_of satisfied class_standing_satisfied
    else match_of not_satisfied class_standing_too_low
standing_match _ _ = match_of manual_review_required class_standing_unknown

unfoldable pub evaluate_class_standing :
    CourseRuleExpression → EligibilityRequestContext → AttemptMatch
evaluate_class_standing expression context = elim expression.class_standing [
  | none ↦ match_of manual_review_required class_standing_unavailable
  | some expected ↦ elim context.student.class_standing [
    | none ↦ match_of manual_review_required class_standing_unavailable
    | some actual ↦ standing_match (standing_rank actual) (standing_rank expected)
  ]
]

abbrev pub program_type_eq : ProgramType → ProgramType → Bool
program_type_eq major major = true
program_type_eq minor minor = true
program_type_eq certificate certificate = true
program_type_eq concentration concentration = true
program_type_eq _ _ = false

abbrev pub is_active_for : Uuid → StudentAcademicProgram → Bool
is_active_for student_id p =
    p.student_profile_id == student_id
    && elim p.status [ StudentAcademicProgramStatus.active ↦ true | _ ↦ false ]

abbrev pub expected_type : CourseRuleExpressionNodeType → Option ProgramType
expected_type CourseRuleExpressionNodeType.major_restriction = some major
expected_type CourseRuleExpressionNodeType.minor_restriction = some minor
expected_type _ = none

-- The two tests of the loop that pass over a row.
unfoldable pub is_program : Option ProgramType → Uuid → AcademicProgram → Bool
is_program expected program_id program =
    program.id == program_id
    && elim expected [ none ↦ true | some t ↦ program_type_eq program.program_type t ]

-- Whether the join has a row that the loop does not pass over.
unfoldable pub has_program : EligibilityTables → Uuid → Option ProgramType → Uuid → Bool
has_program db student_id expected program_id =
    any_by
      (λ (p : StudentAcademicProgram).
        is_active_for student_id p
        && any_by
            (λ (v : ProgramVersion).
              v.id == p.program_version_id
              && any_by
                  (λ (program : AcademicProgram).
                    program.id == v.program_id && is_program expected program_id program)
                  db.programs)
            db.program_versions)
      db.student_programs

abbrev pub is_registration_restriction : CourseRuleType → Bool
is_registration_restriction registration_restriction = true
is_registration_restriction _ = false

unfoldable pub evaluate_program_restriction :
    EligibilityTables
    → CourseRuleExpression
    → CourseRuleType
    → EligibilityRequestContext
    → AttemptMatch
evaluate_program_restriction db expression rule_type context =
    elim expression.referenced_program_id [
      | none ↦ match_of manual_review_required program_restriction_operand_missing
      | some program_id ↦
          if has_program db context.student.id (expected_type expression.node_type) program_id
            && is_registration_restriction rule_type
          then match_course satisfied program_restriction_satisfied context.course.id
          else match_of not_satisfied program_restriction_not_met
    ]

unfoldable pub evaluate_campus_restriction :
    CourseRuleExpression → EligibilityRequestContext → AttemptMatch
evaluate_campus_restriction expression context = elim expression.referenced_campus_id [
  | none ↦ match_of manual_review_required campus_restriction_operand_missing
  | some expected ↦
      if context.student.home_campus_id == expected
      then match_of satisfied campus_restriction_satisfied
      else match_of manual_review_required campus_restriction_review
]

unfoldable pub evaluate_permission_required : AttemptMatch
evaluate_permission_required =
    match_of EligibilityRuleResult.permission_required ReasonCode.permission_required
