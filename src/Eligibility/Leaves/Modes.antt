-- ===== src/Eligibility/Leaves/Modes.antt =====
-- engine.py: the evaluators of the leaves in the mode CURRENT.
use smart_academic_planning.Prelude.{
  ℕ, false, Option, none, some, List, [], ◌∷◌, Text, ◌≡◌, refl, ap, arith,
}
use smart_academic_planning.DegreeAudit.Records.{Uuid, StudentCourseAttempt}
use smart_academic_planning.DegreeAudit.Grades.{GradePolicy}
use smart_academic_planning.Eligibility.Records.{
  EligibilityRuleResult, CourseRuleType, CourseRuleExpression, current, conditionally_satisfied,
}
use smart_academic_planning.Eligibility.Result.{AttemptMatch, EligibilityRequestContext}
use smart_academic_planning.Eligibility.Evidence.{EligibilityTables}
use smart_academic_planning.Eligibility.Rollup.{rule_result_eq}
use smart_academic_planning.Eligibility.Leaves.{
  first_that, is_conditional, without_attempt, not_completed, without_completed, completed_match,
  graded_match, ungraded_match, minimum_grade_match, credits_match, standing_match,
  evaluate_completed_course, evaluate_minimum_grade, evaluate_minimum_completed_credits,
  evaluate_class_standing, evaluate_program_restriction, evaluate_campus_restriction,
  evaluate_permission_required, evaluate_leaf, course_attempts, CreditCount, count_credits,
  standing_rank,
}

-- The result is not that evidence is still to come.
abbrev pub IsDecided : EligibilityRuleResult → Type 0
IsDecided r = rule_result_eq r conditionally_satisfied ≡ false

no_conditional :
    (rule_type : CourseRuleType) (attempts : List StudentCourseAttempt)
    → first_that (is_conditional current rule_type) attempts ≡ none
unfolding first_that is_conditional
no_conditional rule_type [] = refl
no_conditional rule_type (a ∷ attempts) = ground (arith, no_conditional rule_type attempts)

without_attempt-IsDecided :
    (rule_type : CourseRuleType) (context : EligibilityRequestContext) (course_id : Uuid)
    → context.mode ≡ current
    → IsDecided (without_attempt rule_type context course_id).result
unfolding without_attempt
without_attempt-IsDecided rule_type context course_id h = rw h (ground arith)

not_completed-IsDecided :
    (attempts : List StudentCourseAttempt) (rule_type : CourseRuleType)
    (context : EligibilityRequestContext) (course_id : Uuid)
    → context.mode ≡ current
    → IsDecided (not_completed attempts rule_type context course_id).result
unfolding not_completed
not_completed-IsDecided attempts rule_type context course_id h = ground (
  arith,
  ap (λ m. first_that (is_conditional m rule_type) attempts) h,
  no_conditional rule_type attempts,
  without_attempt-IsDecided rule_type context course_id h,
)

completed_match-IsDecided :
    (db : EligibilityTables) (policy : GradePolicy) (rule_type : CourseRuleType)
    (context : EligibilityRequestContext) (course_id : Uuid)
    → context.mode ≡ current
    → IsDecided (completed_match db policy rule_type context course_id).result
unfolding completed_match without_completed
completed_match-IsDecided db policy rule_type context course_id h =
    let last =
      not_completed-IsDecided (course_attempts db context course_id) rule_type context course_id
        h in
    ground arith

minimum_grade_match-IsDecided :
    (db : EligibilityTables) (policy : GradePolicy) (rule_type : CourseRuleType)
    (context : EligibilityRequestContext) (course_id : Uuid) (expected : Text)
    → context.mode ≡ current
    → IsDecided (minimum_grade_match db policy rule_type context course_id expected).result
unfolding minimum_grade_match graded_match ungraded_match
minimum_grade_match-IsDecided db policy rule_type context course_id expected h = ground (
  arith,
  ap (λ m. first_that (is_conditional m rule_type) (course_attempts db context course_id)) h,
  no_conditional rule_type (course_attempts db context course_id),
)

credits_match-IsDecided :
    (required : ℕ) (count : CreditCount) → IsDecided (credits_match required count false).result
unfolding credits_match
credits_match-IsDecided required count = ground arith

standing_match-IsDecided :
    (actual expected : Option ℕ) → IsDecided (standing_match actual expected).result
unfolding standing_match
standing_match-IsDecided none expected = refl
standing_match-IsDecided (some a) none = refl
standing_match-IsDecided (some a) (some b) = ground arith

-- A missing operand is decided by a review, a present one by what is done with it.
operand-IsDecided :
    {A : Type 0} (o : Option A) (m : AttemptMatch) (f : A → AttemptMatch)
    → IsDecided m.result
    → ((a : A) → IsDecided (f a).result)
    → IsDecided (elim o as (λ _. AttemptMatch) [ none ↦ m | some a ↦ f a ]).result
operand-IsDecided none m f h k = h
operand-IsDecided (some a) m f h k = k a

module _ (db : EligibilityTables) (policy : GradePolicy) (expression : CourseRuleExpression)
    (rule_type : CourseRuleType) (context : EligibilityRequestContext)
    (now : context.mode ≡ current) where
  completed-IsDecided :
      IsDecided (evaluate_completed_course db policy expression rule_type context).result
  unfolding evaluate_completed_course
  completed-IsDecided =
      operand-IsDecided expression.referenced_course_id _ _ refl
        λ id. completed_match-IsDecided db policy rule_type context id now

  minimum_grade-IsDecided :
      IsDecided (evaluate_minimum_grade db policy expression rule_type context).result
  unfolding evaluate_minimum_grade
  minimum_grade-IsDecided = operand-IsDecided expression.referenced_course_id _ _ refl λ id.
      operand-IsDecided expression.minimum_grade _ _ refl
        λ expected. minimum_grade_match-IsDecided db policy rule_type context id expected now

  credits-IsDecided : IsDecided (evaluate_minimum_completed_credits db expression context).result
  unfolding evaluate_minimum_completed_credits
  credits-IsDecided = rw now (
      operand-IsDecided expression.minimum_completed_credits _ _ refl
        λ required. credits_match-IsDecided required (count_credits db context.student.id))

  standing-IsDecided : IsDecided (evaluate_class_standing expression context).result
  unfolding evaluate_class_standing
  standing-IsDecided = operand-IsDecided expression.class_standing _ _ refl λ expected.
      operand-IsDecided context.student.class_standing _ _ refl
        λ actual. standing_match-IsDecided (standing_rank actual) (standing_rank expected)

  program-IsDecided :
      IsDecided (evaluate_program_restriction db expression rule_type context).result
  unfolding evaluate_program_restriction
  program-IsDecided = operand-IsDecided expression.referenced_program_id _ _ refl λ id. ground arith

  campus-IsDecided : IsDecided (evaluate_campus_restriction expression context).result
  unfolding evaluate_campus_restriction
  campus-IsDecided = operand-IsDecided expression.referenced_campus_id _ _ refl λ id. ground arith

  -- In the mode CURRENT no leaf waits for evidence that is still to come.
  pub evaluate_leaf-IsDecided :
      IsDecided (evaluate_leaf db policy expression rule_type context).result
  unfolding evaluate_leaf evaluate_permission_required
  evaluate_leaf-IsDecided = ground (
    arith, completed-IsDecided, minimum_grade-IsDecided, credits-IsDecided, standing-IsDecided,
    program-IsDecided, campus-IsDecided,
  )
