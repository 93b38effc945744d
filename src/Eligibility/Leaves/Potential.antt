-- ===== src/Eligibility/Leaves/Potential.antt =====
-- engine.py: the projected credits of `evaluate_minimum_completed_credits`.
use smart_academic_planning.Prelude.{
  ◌+◌, Bool, ◌&&◌, ◌||◌, none, List, [], ◌∷◌, filter_by, sum_if, ◌≡◌, refl, arith,
}
use smart_academic_planning.DegreeAudit.Records.{Uuid, StudentCourseAttempt, TransferCredit}
use smart_academic_planning.Eligibility.Evidence.{
  EligibilityTables, is_none, approved_for, effective_student_course_attempts,
}
use smart_academic_planning.Eligibility.Leaves.{
  CreditCount, count_attempt, count_transfer, count_attempts, count_transfers, no_count,
  count_credits, is_in_progress, is_planned,
}

-- In progress or planned, and of no snapshot.
abbrev pub is_open_attempt : StudentCourseAttempt → Bool
is_open_attempt a = is_none a.course_state_snapshot_id && (is_in_progress a || is_planned a)

count_attempts-potential :
    (attempts : List StudentCourseAttempt) (count : CreditCount)
    → (count_attempts attempts count).potential
      ≡ count.potential + sum_if is_open_attempt (λ a. a.credits_attempted) attempts
unfolding count_attempts count_attempt
count_attempts-potential [] count = omega arith
count_attempts-potential (a ∷ attempts) count =
    let rest = count_attempts-potential attempts (count_attempt a count) in ground arith

count_transfers-potential :
    (transfers : List TransferCredit) (count : CreditCount)
    → (count_transfers transfers count).potential ≡ count.potential
unfolding count_transfers count_transfer
count_transfers-potential [] count = refl
count_transfers-potential (t ∷ transfers) count =
    let rest = count_transfers-potential transfers (count_transfer t count) in ground arith

-- The projected credits are those of every effective attempt that is in progress or planned and of
-- no snapshot, whatever credits of its course are earned already.
pub count_credits-potential :
    (db : EligibilityTables) (student_id : Uuid)
    → (count_credits db student_id).potential
      ≡ sum_if is_open_attempt
          (λ a. a.credits_attempted)
          (effective_student_course_attempts db student_id none)
unfolding count_credits
count_credits-potential db student_id =
    let attempts = effective_student_course_attempts db student_id none in
    let counted = count_attempts-potential attempts no_count in
    let carried =
      count_transfers-potential (filter_by (approved_for student_id) db.transfers)
        (count_attempts attempts no_count) in
    omega arith
