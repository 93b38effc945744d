-- ===== src/DegreeAudit/Evaluators/Leaves.antt =====
-- engine.py: `RequiredCourseEvaluator`, `ChooseNEvaluator`, `MinimumCoursesEvaluator` and
-- `TotalCreditsEvaluator`.
use smart_academic_planning.Prelude.{
  ℕ, Option, none, some, List, [], ◌∷◌, ◌++◌, Text, min, get_list, if◌then◌else◌, or_else, truthy,
  count_by, sum_if, take,
}
use smart_academic_planning.DegreeAudit.Records.{
  Credits, RequirementNode, RequirementCourseOption, Course, RequirementEvaluationStatus,
}
use smart_academic_planning.DegreeAudit.Result.{
  RequirementResult, requirement_configuration_incomplete,
}
use smart_academic_planning.DegreeAudit.Monad.{Audit, get, return, ◌>>=◌, gather}
use smart_academic_planning.DegreeAudit.Allocator.{reserve}
use smart_academic_planning.DegreeAudit.Candidates.{CourseCandidate, sort_candidates}
use smart_academic_planning.DegreeAudit.Context.{
  AuditContext, course_of, waiver_candidates, course_candidates, all_course_candidates,
  credit_summary,
}
use smart_academic_planning.DegreeAudit.Status.{leaf_status, count_status, credit_status}
use smart_academic_planning.DegreeAudit.Evaluators.Base.{
  application_from_candidate, manual_review, result,
}
use smart_academic_planning.DegreeAudit.Evaluators.Selection.{
  first_available_candidate, select_distinct_candidates, choose, apply_all,
}

abbrev pub truthy_text : Option Text → Option Text
truthy_text none = none
truthy_text (some []) = none
truthy_text (some (c ∷ s)) = some (c ∷ s)

-- `option.minimum_grade or node.minimum_grade`
abbrev pub option_grade : RequirementNode → RequirementCourseOption → Option Text
option_grade node o = or_else (truthy_text o.minimum_grade) node.minimum_grade

-- `option.credits_override or course.credits_min`
unfoldable pub option_credits : RequirementCourseOption → Course → Credits
option_credits o course = elim (truthy o.credits_override) [
  | none ↦ course.credits_min
  | some v ↦ v
]

abbrev pub incomplete : RequirementNode → Audit RequirementResult
incomplete node = return (manual_review node requirement_configuration_incomplete)

module _ (ctx : AuditContext) (node : RequirementNode) where
  -- The loop over the options: the credits of the option looked at last, and the candidate found.
  unfoldable pub pick_option :
      Credits → List RequirementCourseOption → Audit (Credits × Option CourseCandidate)
  pick_option required [] = return (required, none)
  pick_option required (o ∷ os) = do
    course ← course_of ctx o.course_id
    candidates ← course_candidates ctx node o.course_id (option_grade node o)
    s ← get
    let credits = option_credits o course
    elim (first_available_candidate s.used_sources node.allows_overlap candidates) [
      | some c ↦ return (credits, some c)
      | none ↦ pick_option credits os
    ]

  -- A waiver was found: it satisfies the requirement and earns no credits.
  unfoldable pub apply_waiver : CourseCandidate → Audit RequirementResult
  apply_waiver waiver = do
    is_shared ← reserve waiver.source_key node.allows_overlap
    return (
        result node (record {
          status = RequirementEvaluationStatus.waived;
          required_credits = some 0;
          satisfied_credits = 0;
          required_courses = some 1;
          satisfied_courses = 1;
          applications = application_from_candidate node waiver is_shared ∷ [];
          warnings = [];
        }))

  unfoldable pub apply_best : Credits → CourseCandidate → Audit RequirementResult
  apply_best required best = do
    is_shared ← reserve best.source_key node.allows_overlap
    return (
        result node (record {
          status = leaf_status best;
          required_credits = some required;
          satisfied_credits = if best.is_completed then best.credits else 0;
          required_courses = some 1;
          satisfied_courses = if best.is_completed then 1 else 0;
          applications = application_from_candidate node best is_shared ∷ [];
          warnings = [];
        }))

  unfoldable pub no_candidate : Credits → RequirementResult
  no_candidate required = result node (record {
    status = RequirementEvaluationStatus.not_satisfied;
    required_credits = some required;
    satisfied_credits = 0;
    required_courses = some 1;
    satisfied_courses = 0;
    applications = [];
    warnings = [];
  })

  unfoldable pub pick_course : List RequirementCourseOption → Audit RequirementResult
  pick_course [] = incomplete node
  pick_course (o ∷ os) = do
    (required, best) ← pick_option 0 (o ∷ os)
    elim best [ none ↦ return (no_candidate required) | some c ↦ apply_best required c ]

  unfoldable pub required_course : Audit RequirementResult
  required_course = do
    s ← get
    elim (first_available_candidate s.used_sources node.allows_overlap
        (waiver_candidates ctx node)) [
          | some w ↦ apply_waiver w
          | none ↦ pick_course (get_list node.id ctx.options_by_node)
        ]

  unfoldable pub choose_candidates : Audit (List CourseCandidate)
  choose_candidates = do
    found ←
        gather (λ o. course_candidates ctx node o.course_id (option_grade node o))
          (get_list node.id ctx.options_by_node)
    return (waiver_candidates ctx node ++ found)

  -- The part behind the test of `choose_n`.
  unfoldable pub choose_valid : ℕ → Audit RequirementResult
  choose_valid n = do
    candidates ← choose_candidates
    s ← get
    let selected = choose n s.used_sources node.allows_overlap [] (sort_candidates candidates)
    applications ← apply_all node selected
    let completed = count_by (λ (c : CourseCandidate). c.is_completed) selected
    return (
        result node (record {
          status =
              count_status n completed
                (count_by (λ (c : CourseCandidate). c.is_in_progress) selected)
                (count_by (λ (c : CourseCandidate). c.is_planned) selected);
          required_credits = none;
          satisfied_credits =
              sum_if (λ (c : CourseCandidate). c.is_completed) (λ c. c.credits) selected;
          required_courses = some n;
          satisfied_courses = completed;
          applications = applications;
          warnings = [];
        }))

  unfoldable pub choose_n : Audit RequirementResult
  choose_n = elim (truthy node.choose_n) [ none ↦ incomplete node | some n ↦ choose_valid n ]

  unfoldable pub courses_at_least : ℕ → Audit RequirementResult
  courses_at_least required = do
    candidates ← all_course_candidates ctx node node.minimum_grade
    s ← get
    let selected = select_distinct_candidates s.used_sources node.allows_overlap candidates
    let completed = count_by (λ (c : CourseCandidate). c.is_completed) selected
    applications ← apply_all node (take required selected)
    return (
        result node (record {
          status =
              count_status required completed
                (count_by (λ (c : CourseCandidate). c.is_in_progress) selected)
                (count_by (λ (c : CourseCandidate). c.is_planned) selected);
          required_credits = none;
          satisfied_credits =
              sum_if (λ (c : CourseCandidate). c.is_completed) (λ c. c.credits) selected;
          required_courses = some required;
          satisfied_courses = min completed required;
          applications = applications;
          warnings = [];
        }))

  unfoldable pub minimum_courses : Audit RequirementResult
  minimum_courses = elim node.minimum_courses [
    | none ↦ incomplete node
    | some n ↦ courses_at_least n
  ]

  -- `node.minimum_credits or context.total_required_credits`
  abbrev pub asked_total : Credits
  asked_total = elim (truthy node.minimum_credits) [
    | none ↦ ctx.total_required_credits
    | some v ↦ v
  ]

  unfoldable pub total_credits : Audit RequirementResult
  total_credits = do
    totals ← credit_summary ctx
    let required : Credits = asked_total
    return (
        result node (record {
          status = credit_status required totals.completed totals.in_progress totals.planned;
          required_credits = some required;
          satisfied_credits = totals.completed;
          required_courses = none;
          satisfied_courses = 0;
          applications = [];
          warnings = [];
        }))
