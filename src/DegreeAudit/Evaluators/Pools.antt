-- ===== src/DegreeAudit/Evaluators/Pools.antt =====
-- engine.py: `evaluate_credit_pool`, and the evaluators that call it: `MinimumCreditsEvaluator`,
-- `CourseLevelEvaluator` and `ResidencyEvaluator`.
use smart_academic_planning.Prelude.{
  ℕ, ◌+◌, Bool, true, false, not, ◌&&◌, Option, none, some, List, [], ◌∷◌, leb, if◌then◌else◌,
  filter_by, sum_if, get_or_zero,
}
use smart_academic_planning.DegreeAudit.Records.{Credits, RequirementNode}
use smart_academic_planning.DegreeAudit.Result.{CourseApplicationResult, RequirementResult}
use smart_academic_planning.DegreeAudit.Monad.{Audit, get, return, ◌>>=◌}
use smart_academic_planning.DegreeAudit.Allocator.{is_available, reserve}
use smart_academic_planning.DegreeAudit.Candidates.{CourseCandidate}
use smart_academic_planning.DegreeAudit.Context.{AuditContext, all_course_candidates}
use smart_academic_planning.DegreeAudit.Status.{credit_status}
use smart_academic_planning.DegreeAudit.Evaluators.Base.{application_from_candidate, result}
use smart_academic_planning.DegreeAudit.Evaluators.Selection.{select_distinct_candidates}
use smart_academic_planning.DegreeAudit.Evaluators.Leaves.{incomplete}

pub record Pool : Type 0 where
  pub required_credits : Credits
  pub reserve_sources : Bool
  pub only_resident : Bool
  pub minimum_course_level : Option ℕ

-- The two filters of the candidates.
unfoldable pub in_pool : Pool → CourseCandidate → Bool
in_pool pool c =
    (if pool.only_resident then c.is_resident else true) && elim pool.minimum_course_level [
      | none ↦ true
      | some level ↦ elim c.course_level [ none ↦ false | some l ↦ leb level l ]
    ]

module _ (node : RequirementNode) (pool : Pool) where
  -- The candidate's source is taken: `reserve` is called only if the pool reserves its sources.
  unfoldable pub take_source : CourseCandidate → Audit Bool
  take_source c =
      if pool.reserve_sources then reserve c.source_key node.allows_overlap else return false

  -- The loop over the selected candidates, which stops when the applied credits suffice.
  unfoldable pub apply_credits :
      Credits → List CourseCandidate → Audit (List CourseApplicationResult)
  apply_credits applied [] = return []
  apply_credits applied (c ∷ cs) = if leb pool.required_credits applied then return [] else do
    s ← get
    elim (pool.reserve_sources
        && not (is_available s.used_sources c.source_key node.allows_overlap)) [
          | true ↦ apply_credits applied cs
          | false ↦ do
            is_shared ← take_source c
            rest ← apply_credits (if c.is_completed then applied + c.credits else applied) cs
            return (application_from_candidate node c is_shared ∷ rest)
        ]

  unfoldable pub evaluate_credit_pool : AuditContext → Audit RequirementResult
  evaluate_credit_pool ctx = do
    candidates ← all_course_candidates ctx node node.minimum_grade
    s ← get
    let selected =
        select_distinct_candidates s.used_sources true (filter_by (in_pool pool) candidates)
    let completed = sum_if (λ (c : CourseCandidate). c.is_completed) (λ c. c.credits) selected
    applications ← apply_credits 0 selected
    return (
        result node (record {
          status =
              credit_status pool.required_credits completed
                (sum_if (λ (c : CourseCandidate). c.is_in_progress) (λ c. c.credits) selected)
                (sum_if (λ (c : CourseCandidate). c.is_planned) (λ c. c.credits) selected);
          required_credits = some pool.required_credits;
          satisfied_credits = completed;
          required_courses = none;
          satisfied_courses = 0;
          applications = applications;
          warnings = [];
        }))

module _ (ctx : AuditContext) (node : RequirementNode) where
  unfoldable pub minimum_credits : Audit RequirementResult
  minimum_credits = elim node.minimum_credits [
    | none ↦ incomplete node
    | some required ↦
        evaluate_credit_pool node
          (record {
            required_credits = required;
            reserve_sources = true;
            only_resident = false;
            minimum_course_level = node.minimum_course_level;
          })
          ctx
  ]

  unfoldable pub course_level : Audit RequirementResult
  course_level = elim node.minimum_course_level [
    | none ↦ incomplete node
    | some level ↦
        evaluate_credit_pool node
          (record {
            required_credits = get_or_zero node.minimum_credits;
            reserve_sources = false;
            only_resident = false;
            minimum_course_level = some level;
          })
          ctx
  ]

  unfoldable pub residency : Audit RequirementResult
  residency = elim node.minimum_residency_credits [
    | none ↦ incomplete node
    | some required ↦
        evaluate_credit_pool node
          (record {
            required_credits = required;
            reserve_sources = false;
            only_resident = true;
            minimum_course_level = none;
          })
          ctx
  ]
