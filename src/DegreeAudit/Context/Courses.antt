-- ===== src/DegreeAudit/Context/Courses.antt =====
-- context.py: `_direct_course_candidates`, `_equivalency_candidates`, `_substitution_candidates`,
-- `course_candidates` and `all_course_candidates`.
use smart_academic_planning.Prelude.{
  Bool, Option, none, some, List, ◌++◌, Text, get_list, keys, leb, ◌==◌, ◌&&◌, filter_by, sorted,
}
use smart_academic_planning.DegreeAudit.Records.{
  Uuid, RequirementNode, CourseEquivalency, CourseSubstitution, AuditApplicationType, is_approved,
  is_completed_attempt,
}
use smart_academic_planning.DegreeAudit.Result.{SourceKind}
use smart_academic_planning.DegreeAudit.Monad.{Audit, return, ◌>>=◌, collect, gather}
use smart_academic_planning.DegreeAudit.Candidates.{CourseCandidate, sort_candidates}
use smart_academic_planning.DegreeAudit.Context.Attempts.{
  AuditContext, AttemptUse, plain_use, attempt_candidate, transfer_candidate,
}

module _ (ctx : AuditContext) (node : RequirementNode) where
  unfoldable pub direct_course_candidates : Uuid → Option Text → Audit (List CourseCandidate)
  direct_course_candidates course_id minimum_grade = do
    attempts ←
        collect (λ a. attempt_candidate ctx node a course_id minimum_grade plain_use)
          (get_list course_id ctx.attempts_by_course)
    transfers ←
        collect (λ t. transfer_candidate ctx node t minimum_grade)
          (get_list course_id ctx.transfers_by_course)
    return (attempts ++ transfers)

  abbrev pub equivalency_use : AttemptUse
  equivalency_use = record {
    application_type = AuditApplicationType.equivalency;
    course_substitution_id = none;
    source_key = none;
  }

  unfoldable pub equivalency_candidates : Uuid → Option Text → Audit (List CourseCandidate)
  equivalency_candidates target minimum_grade =
      gather
        (λ (e : CourseEquivalency).
          collect (λ a. attempt_candidate ctx node a target minimum_grade equivalency_use)
            (get_list e.source_course_id ctx.attempts_by_course))
        (get_list target ctx.equivalencies_by_equivalent)

  abbrev pub substitution_use : CourseSubstitution → AttemptUse
  substitution_use sub = record {
    application_type = AuditApplicationType.substitution;
    course_substitution_id = some sub.id;
    source_key = some (SourceKind.substitution, sub.id);
  }

  -- The substitutions that pass both `continue` tests of the outer loop.
  abbrev pub applicable : Uuid → CourseSubstitution → Bool
  applicable target sub = is_approved sub.status && sub.original_course_id == target

  unfoldable pub substitution_candidates : Uuid → Option Text → Audit (List CourseCandidate)
  substitution_candidates target minimum_grade =
      gather
        (λ (sub : CourseSubstitution).
          collect
            (λ a.
              attempt_candidate ctx node a sub.substitute_course_id minimum_grade
                (substitution_use sub))
            (filter_by (λ a. is_completed_attempt a.status)
              (get_list sub.substitute_course_id ctx.attempts_by_course)))
        (filter_by (applicable target) (get_list node.id ctx.substitutions_by_requirement))

  unfoldable pub course_candidates : Uuid → Option Text → Audit (List CourseCandidate)
  course_candidates course_id minimum_grade = do
    direct ← direct_course_candidates course_id minimum_grade
    equivalent ← equivalency_candidates course_id minimum_grade
    substituted ← substitution_candidates course_id minimum_grade
    return (sort_candidates (direct ++ (equivalent ++ substituted)))

  unfoldable pub all_course_candidates : Option Text → Audit (List CourseCandidate)
  all_course_candidates minimum_grade = do
    found ←
        gather (λ course_id. direct_course_candidates course_id minimum_grade)
          (sorted leb (keys ctx.courses_by_id))
    return (sort_candidates found)
