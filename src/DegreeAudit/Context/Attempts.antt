-- ===== src/DegreeAudit/Context/Attempts.antt =====
-- context.py: the context's dictionaries, `_attempt_candidate`, `_transfer_candidate` and
-- `waiver_candidates`.
use smart_academic_planning.Prelude.{
  Bool, true, false, Option, none, some, List, Text, Dict, lookup, get_list, if◌then◌else◌,
  filter_by, map,
}
use smart_academic_planning.DegreeAudit.Records.{
  Uuid, Credits, RequirementNode, RequirementCourseOption, Course, StudentCourseAttempt,
  StudentCourseAttemptStatus, TransferCredit, CourseWaiver, CourseSubstitution, CourseEquivalency,
  AuditApplicationType, AuditMode, AuditWarningSeverity, is_approved,
}
use smart_academic_planning.DegreeAudit.Result.{
  SourceKey, SourceKind, WarningCode, AuditWarningResult, incomplete_attempt,
  transfer_without_equivalency,
}
use smart_academic_planning.DegreeAudit.Grades.{GradePolicy, satisfies_minimum}
use smart_academic_planning.DegreeAudit.Monad.{Audit, key_error, fail, return, warn, ◌>>=◌, ◌>>◌}
use smart_academic_planning.DegreeAudit.Candidates.{CourseCandidate}

pub record AuditContext : Type 0 where
  pub student_profile_id : Uuid
  pub program_version_id : Uuid
  pub mode : AuditMode
  pub total_required_credits : Credits
  pub nodes_by_id : Dict RequirementNode
  pub roots : List RequirementNode
  pub children_by_parent : Dict (List RequirementNode)
  pub options_by_node : Dict (List RequirementCourseOption)
  pub courses_by_id : Dict Course
  pub grade_policy : GradePolicy
  pub attempts_by_course : Dict (List StudentCourseAttempt)
  pub transfers_by_course : Dict (List TransferCredit)
  pub waivers_by_requirement : Dict (List CourseWaiver)
  pub substitutions_by_requirement : Dict (List CourseSubstitution)
  pub equivalencies_by_equivalent : Dict (List CourseEquivalency)

-- `self.courses_by_id[course_id]`
unfoldable pub course_of : AuditContext → Uuid → Audit Course
course_of ctx course_id = elim (lookup course_id ctx.courses_by_id) [
  | none ↦ fail key_error
  | some c ↦ return c
]

-- The warning that needs an advisor, about a requirement node.
abbrev pub node_warning : WarningCode → Uuid → AuditWarningResult
node_warning code node_id = record {
  warning_code = code;
  severity = AuditWarningSeverity.warning;
  requires_advisor_confirmation = true;
  requirement_node_id = some node_id;
}

abbrev pub warn_if_some : Option WarningCode → Uuid → Audit (Unit {0})
warn_if_some none node_id = return tt
warn_if_some (some code) node_id = warn (node_warning code node_id)

unfoldable pub waiver_candidate : CourseWaiver → CourseCandidate
waiver_candidate w = record {
  source_key = (SourceKind.waiver, w.id);
  course_id = none;
  application_type = AuditApplicationType.waiver;
  credits = 0;
  grade = none;
  is_completed = true;
  is_in_progress = false;
  is_planned = false;
  is_resident = false;
  course_level = none;
  student_course_attempt_id = none;
  transfer_credit_id = none;
  course_waiver_id = some w.id;
  course_substitution_id = none;
}

unfoldable pub waiver_candidates : AuditContext → RequirementNode → List CourseCandidate
waiver_candidates ctx node =
    map waiver_candidate
      (filter_by (λ w. is_approved w.status) (get_list node.id ctx.waivers_by_requirement))

-- The keyword arguments of `_attempt_candidate`, with the defaults of the source.
pub record AttemptUse : Type 0 where
  pub application_type : AuditApplicationType
  pub course_substitution_id : Option Uuid
  pub source_key : Option SourceKey

abbrev pub plain_use : AttemptUse
plain_use = record {
  application_type = AuditApplicationType.course_attempt;
  course_substitution_id = none;
  source_key = none;
}

-- The candidate of an attempt: completed, in progress or planned.
unfoldable pub attempt_record :
    StudentCourseAttempt
    → Uuid
    → AttemptUse
    → Course
    → Credits
    → Bool
    → Bool
    → Bool
    → CourseCandidate
attempt_record attempt course_id how course credits completed in_progress planned = record {
  source_key = elim how.source_key [ none ↦ (SourceKind.attempt, attempt.id) | some key ↦ key ];
  course_id = some course_id;
  application_type = how.application_type;
  credits = credits;
  grade = attempt.grade;
  is_completed = completed;
  is_in_progress = in_progress;
  is_planned = planned;
  is_resident = true;
  course_level = some course.course_level;
  student_course_attempt_id = some attempt.id;
  transfer_credit_id = none;
  course_waiver_id = none;
  course_substitution_id = how.course_substitution_id;
}

-- The branch of `_attempt_candidate` for each status.
unfoldable pub attempt_by_status :
    StudentCourseAttemptStatus
    → AuditContext
    → RequirementNode
    → StudentCourseAttempt
    → Uuid
    → Option Text
    → AttemptUse
    → Course
    → Audit (Option CourseCandidate)
attempt_by_status StudentCourseAttemptStatus.completed ctx node a id minimum how course =
    let decision = satisfies_minimum ctx.grade_policy a.grade minimum in
    do
      warn_if_some decision.warning_code node.id
      return (
          if decision.is_satisfied
          then some (attempt_record a id how course a.credits_earned true false false)
          else none)
attempt_by_status StudentCourseAttemptStatus.in_progress ctx node a id minimum how course =
    return (some (attempt_record a id how course a.credits_attempted false true false))
attempt_by_status StudentCourseAttemptStatus.planned ctx node a id minimum how course =
    return (some (attempt_record a id how course a.credits_attempted false false true))
attempt_by_status StudentCourseAttemptStatus.incomplete ctx node a id minimum how course = do
  warn (node_warning incomplete_attempt node.id)
  return none
attempt_by_status _ ctx node a id minimum how course = return none

unfoldable pub attempt_candidate :
    AuditContext
    → RequirementNode
    → StudentCourseAttempt
    → Uuid
    → Option Text
    → AttemptUse
    → Audit (Option CourseCandidate)
attempt_candidate ctx node attempt applied_course_id minimum_grade how = do
  course ← course_of ctx applied_course_id
  attempt_by_status attempt.status ctx node attempt applied_course_id minimum_grade how course

unfoldable pub transfer_record : TransferCredit → Uuid → Course → CourseCandidate
transfer_record t course_id course = record {
  source_key = (SourceKind.transfer, t.id);
  course_id = some course_id;
  application_type = AuditApplicationType.transfer_credit;
  credits = t.credits_earned;
  grade = t.grade;
  is_completed = true;
  is_in_progress = false;
  is_planned = false;
  is_resident = false;
  course_level = some course.course_level;
  student_course_attempt_id = none;
  transfer_credit_id = some t.id;
  course_waiver_id = none;
  course_substitution_id = none;
}

-- The grade test of a transfer, made only if the requirement has a minimum grade.
unfoldable pub transfer_grade :
    AuditContext → RequirementNode → TransferCredit → Option Text → Audit Bool
transfer_grade ctx node t none = return true
transfer_grade ctx node t (some minimum) =
    let decision = satisfies_minimum ctx.grade_policy t.grade (some minimum) in
    do warn_if_some decision.warning_code node.id; return decision.is_satisfied

-- The part of `_transfer_candidate` behind the test of the status.
unfoldable pub approved_transfer :
    Option Uuid
    → AuditContext
    → RequirementNode
    → TransferCredit
    → Option Text
    → Audit (Option CourseCandidate)
approved_transfer none ctx node t minimum_grade = do
  warn (node_warning transfer_without_equivalency node.id)
  return none
approved_transfer (some course_id) ctx node t minimum_grade = do
  passes ← transfer_grade ctx node t minimum_grade
  if passes
      then (do course ← course_of ctx course_id; return (some (transfer_record t course_id course)))
      else return none

unfoldable pub transfer_candidate :
    AuditContext → RequirementNode → TransferCredit → Option Text → Audit (Option CourseCandidate)
transfer_candidate ctx node t minimum_grade =
    if is_approved t.status
    then approved_transfer t.equivalent_course_id ctx node t minimum_grade
    else return none
