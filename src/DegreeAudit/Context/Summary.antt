-- ===== src/DegreeAudit/Context/Summary.antt =====
-- context.py: `credit_summary`, which counts each course once, by its first candidate.
use smart_academic_planning.Prelude.{
  ◌+◌, Bool, true, false, ◌||◌, Option, none, some, List, [], ◌∷◌, ◌==◌, codes, if◌then◌else◌,
}
use smart_academic_planning.DegreeAudit.Records.{Uuid, Credits, RequirementNode, RequirementType}
use smart_academic_planning.DegreeAudit.Monad.{Audit, return, ◌>>=◌}
use smart_academic_planning.DegreeAudit.Candidates.{CourseCandidate}
use smart_academic_planning.DegreeAudit.Context.Attempts.{AuditContext}
use smart_academic_planning.DegreeAudit.Context.Courses.{all_course_candidates}

-- `course_id in seen_courses`
unfoldable pub is_seen : Uuid → List Uuid → Bool
is_seen id [] = false
is_seen id (j ∷ seen) = j == id || is_seen id seen

pub record CreditTotals : Type 0 where
  pub completed : Credits
  pub in_progress : Credits
  pub planned : Credits

abbrev pub no_credits : CreditTotals
no_credits = record { completed = 0; in_progress = 0; planned = 0 }

-- The `if`/`elif` chain over the state of a candidate.
unfoldable pub add_credits : CreditTotals → CourseCandidate → CreditTotals
add_credits t c =
    if c.is_completed
    then record t { completed = t.completed + c.credits }
    else if c.is_in_progress
    then record t { in_progress = t.in_progress + c.credits }
    else if c.is_planned
    then record t { planned = t.planned + c.credits }
    else t

-- The `continue` test of the loop.
unfoldable pub skipped : List Uuid → CourseCandidate → Bool
skipped seen c = elim c.course_id [ none ↦ true | some id ↦ is_seen id seen ]

abbrev pub note_course : Option Uuid → List Uuid → List Uuid
note_course none seen = seen
note_course (some id) seen = id ∷ seen

unfoldable pub sum_credits : List Uuid → CreditTotals → List CourseCandidate → CreditTotals
sum_credits seen t [] = t
sum_credits seen t (c ∷ cs) = elim (skipped seen c) [
  | true ↦ sum_credits seen t cs
  | false ↦ sum_credits (note_course c.course_id seen) (add_credits t c) cs
]

-- The node that stands in for a requirement: its id is the zero UUID.
abbrev pub summary_node : RequirementNode
summary_node = record {
  id = 0;
  parent_id = none;
  code = codes "SUMMARY";
  name = codes "Summary";
  requirement_type = RequirementType.total_credits;
  display_order = 0;
  minimum_credits = none;
  minimum_courses = none;
  choose_n = none;
  minimum_grade = none;
  minimum_course_level = none;
  minimum_residency_credits = none;
  allows_overlap = false;
}

unfoldable pub credit_summary : AuditContext → Audit CreditTotals
credit_summary ctx = do
  candidates ← all_course_candidates ctx summary_node none
  return (sum_credits [] no_credits candidates)
