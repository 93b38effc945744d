-- ===== src/DegreeAudit/Candidates.antt =====
-- apps/api/app/services/degree_audit/context.py: `CourseCandidate` and `candidate_sort_key`, which
-- engine.py repeats. A source's text `str(source_key[1])` is compared as the number of its UUID.
pub mod Order
use smart_academic_planning.Prelude.{
  ℕ, Bool, true, false, Option, List, Text, if◌then◌else◌, sorted,
}
use smart_academic_planning.DegreeAudit.Records.{Uuid, Credits, AuditApplicationType, waiver}
use smart_academic_planning.DegreeAudit.Keys.{SortKey, key_leb}
use smart_academic_planning.DegreeAudit.Result.{SourceKey}

pub record CourseCandidate : Type 0 where
  pub source_key : SourceKey
  pub course_id : Option Uuid
  pub application_type : AuditApplicationType
  pub credits : Credits
  pub grade : Option Text
  pub is_completed : Bool
  pub is_in_progress : Bool
  pub is_planned : Bool
  pub is_resident : Bool
  pub course_level : Option ℕ
  pub student_course_attempt_id : Option Uuid
  pub transfer_credit_id : Option Uuid
  pub course_waiver_id : Option Uuid
  pub course_substitution_id : Option Uuid

abbrev pub is_waiver : AuditApplicationType → Bool
is_waiver waiver = true
is_waiver _ = false

abbrev pub state_rank : CourseCandidate → ℕ
state_rank c =
    if c.is_completed then 0 else if c.is_in_progress then 1 else if c.is_planned then 2 else 3

abbrev pub type_rank : CourseCandidate → ℕ
type_rank c = if is_waiver c.application_type then 0 else 1

unfoldable pub candidate_sort_key : CourseCandidate → SortKey
candidate_sort_key c = (state_rank c, type_rank c, c.source_key.1)

unfoldable pub candidate_leb : CourseCandidate → CourseCandidate → Bool
candidate_leb x y = key_leb (candidate_sort_key x) (candidate_sort_key y)

unfoldable pub sort_candidates : List CourseCandidate → List CourseCandidate
sort_candidates = sorted candidate_leb
