-- ===== src/DegreeAudit/Status.antt =====
-- apps/api/app/services/degree_audit/engine.py: how counts, credits and children decide a status.
pub mod Meaning
pub mod Children
use smart_academic_planning.Prelude.{
  ℕ, zero, suc, ◌+◌, Bool, true, false, not, ◌&&◌, ◌||◌, Option, none, some, List, [], ◌∷◌, ltb,
  leb, ◌==◌, if◌then◌else◌, any_by, all_by,
}
use smart_academic_planning.DegreeAudit.Records.{
  Credits, RequirementEvaluationStatus, satisfied, in_progress, planned, partially_satisfied,
  not_satisfied, waived, manual_review_required, not_applicable,
}
use smart_academic_planning.DegreeAudit.Candidates.{CourseCandidate, is_waiver}

-- Prefix of the paths below: the constructors of `RequirementEvaluationStatus`.
abbrev pub Status : Type 0
Status = RequirementEvaluationStatus

unfoldable pub leaf_status : CourseCandidate → Status
leaf_status c =
    if is_waiver c.application_type
    then waived
    else if c.is_completed
    then satisfied
    else if c.is_in_progress
    then in_progress
    else if c.is_planned
    then planned
    else not_satisfied

unfoldable pub count_status : ℕ → ℕ → ℕ → ℕ → Status
count_status required c i p =
    if leb required c
    then satisfied
    else if leb required (c + i)
    then in_progress
    else if leb required (c + i + p)
    then planned
    else if ltb 0 c || (ltb 0 i || ltb 0 p)
    then partially_satisfied
    else not_satisfied

-- The same chain over credits.
unfoldable pub credit_status : Credits → Credits → Credits → Credits → Status
credit_status required c i p =
    if leb required c
    then satisfied
    else if leb required (c + i)
    then in_progress
    else if leb required (c + i + p)
    then planned
    else if ltb 0 c || (ltb 0 i || ltb 0 p)
    then partially_satisfied
    else not_satisfied

-- The value that `status_rank` looks up.
unfoldable pub status_rank : Status → ℕ
status_rank satisfied = 0
status_rank waived = 1
status_rank in_progress = 2
status_rank planned = 3
status_rank partially_satisfied = 4
status_rank not_satisfied = 5
status_rank manual_review_required = 6
status_rank not_applicable = 7

unfoldable pub status_eq : Status → Status → Bool
status_eq s t = status_rank s == status_rank t

-- `status in statuses`
unfoldable pub occurs : Status → List Status → Bool
occurs s statuses = any_by (status_eq s) statuses

unfoldable pub is_satisfied_like : Status → Bool
is_satisfied_like satisfied = true
is_satisfied_like waived = true
is_satisfied_like not_applicable = true
is_satisfied_like _ = false

-- The members of the last set of `all_of_status`.
unfoldable pub shows_progress : Status → Bool
shows_progress satisfied = true
shows_progress waived = true
shows_progress in_progress = true
shows_progress planned = true
shows_progress partially_satisfied = true
shows_progress _ = false

unfoldable pub all_of_status : List Status → Status
all_of_status statuses =
    if occurs manual_review_required statuses
    then manual_review_required
    else if all_by is_satisfied_like statuses
    then satisfied
    else if not (occurs not_satisfied statuses) && occurs in_progress statuses
    then in_progress
    else if not (occurs not_satisfied statuses) && occurs planned statuses
    then planned
    else if any_by shows_progress statuses
    then partially_satisfied
    else not_satisfied

unfoldable pub any_of_status : List Status → Status
any_of_status statuses =
    if occurs satisfied statuses || occurs waived statuses
    then satisfied
    else if occurs in_progress statuses
    then in_progress
    else if occurs planned statuses
    then planned
    else if occurs partially_satisfied statuses
    then partially_satisfied
    else if occurs manual_review_required statuses
    then manual_review_required
    else not_satisfied

-- `sum_optional` and `sum_optional_int`: the sum of the values that are present, if any is.
unfoldable pub sum_optional : List (Option ℕ) → Option ℕ
sum_optional [] = none
sum_optional (none ∷ xs) = sum_optional xs
sum_optional (some v ∷ xs) = elim (sum_optional xs) [
  | none ↦ some v
  | some total ↦ some (v + total)
]
