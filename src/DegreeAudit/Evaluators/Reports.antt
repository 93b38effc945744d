-- ===== src/DegreeAudit/Evaluators/Reports.antt =====
-- engine.py: what the evaluators of the leaves return, `RequiredCourseEvaluator`, `ChooseNEvaluator`,
-- `MinimumCoursesEvaluator` and `TotalCreditsEvaluator`; the pools are in Reports/Pools.
pub mod Pools
use mathlib.Core.Option
use smart_academic_planning.Prelude.{
  ◌%◌, Option, some, ℕ, ◌+◌, ◌-◌, none, List, [], ◌∷◌, get_list, ◌≡◌, refl, All, All-map,
  All-get_list, get_or_zero, truthy, leb, not, ◌&&◌, if◌then◌else◌, arith,
}
use smart_academic_planning.DegreeAudit.Records.{
  Uuid, Credits, RequirementNode, RequirementCourseOption,
}
use smart_academic_planning.DegreeAudit.Quantize.{tenth, quantize_credits}
use smart_academic_planning.DegreeAudit.Quantize.Nearest.{
  IsWithinTenth, quantize_credits_near, quantize_credits_whole, quantize_credits-eq-zero,
  quantize_credits-remaining,
}
use smart_academic_planning.DegreeAudit.Result.{WarningCode, RequirementResult}
use smart_academic_planning.DegreeAudit.Monad.{AuditState, gather}
use smart_academic_planning.DegreeAudit.Allocator.{is_available, reserve}
use smart_academic_planning.DegreeAudit.Allocator.Exclusive.{Reserves, reserve-Ends}
use smart_academic_planning.DegreeAudit.Frames.{
  Ends, Ends-option, Ends-if, Ends-bool, Ends-map, Ends-bind, OnlyWarns, OnlyWarns→Adds, Adds,
  Adds-refl, Adds-trans, gather-Ends,
}
use smart_academic_planning.DegreeAudit.Candidates.{CourseCandidate}
use smart_academic_planning.DegreeAudit.Context.{
  AuditContext, course_of, course_candidates, all_course_candidates, waiver_candidates,
  credit_summary, summary_node,
}
use smart_academic_planning.DegreeAudit.Context.Eligible.{IsCandidate, Readable, course_of-Ends}
use smart_academic_planning.DegreeAudit.Context.Closed.{
  Closed, course_candidates-Ends, all_course_candidates-Ends,
}
use smart_academic_planning.DegreeAudit.Evaluators.Base.{Figures, result, manual_review}
use smart_academic_planning.DegreeAudit.Evaluators.Selection.{first_available_candidate, apply_all}
use smart_academic_planning.DegreeAudit.Evaluators.Leaves.{
  option_credits, option_grade, pick_option, apply_waiver, apply_best, no_candidate, pick_course,
  required_course, choose_candidates, choose_valid, choose_n, courses_at_least, minimum_courses,
  total_credits,
}
use smart_academic_planning.DegreeAudit.Evaluators.Pools.{
  Pool, take_source, apply_credits, evaluate_credit_pool, minimum_credits, course_level, residency,
}

-- What holds of every result for the node with this id. The remaining credits are rounded to whole
-- tenths after the subtraction.
pub record IsReport (id : Uuid) (r : RequirementResult) : Type 0 where
  pub node_id : r.requirement_node_id ≡ id
  pub whole_tenths : r.remaining_credits % tenth ≡ 0
  pub credits_left :
      IsWithinTenth r.remaining_credits (get_or_zero r.required_credits - r.satisfied_credits)
  pub courses_left : r.remaining_courses ≡ get_or_zero r.required_courses - r.satisfied_courses

figures_left :
    (required : Option Credits) (satisfied : Credits)
    → IsWithinTenth
        (quantize_credits (get_or_zero required - satisfied))
        (get_or_zero (Option.map quantize_credits required) - quantize_credits satisfied)
figures_left none satisfied =
    let zero = (quantize_credits-eq-zero (0 - satisfied)).1 (omega arith) in
    (omega arith, omega arith)
figures_left (some required) satisfied = quantize_credits-remaining required satisfied

pub result-IsReport : (node : RequirementNode) (o : Figures) → IsReport node.id (result node o)
unfolding result
result-IsReport node o = record {
  node_id = refl;
  whole_tenths = quantize_credits_whole _;
  credits_left = figures_left o.required_credits o.satisfied_credits;
  courses_left = refl;
}

pub manual_review-IsReport :
    (node : RequirementNode) (code : WarningCode) → IsReport node.id (manual_review node code)
unfolding manual_review
manual_review-IsReport node code =
    let near = quantize_credits_near (get_or_zero node.minimum_credits) in
    record {
      node_id = refl;
      whole_tenths = quantize_credits_whole _;
      credits_left = (omega arith, omega arith);
      courses_left = omega arith;
    }

abbrev pub Reports : RequirementNode → RequirementResult → AuditState → AuditState → Type 0
Reports node r s s' = IsReport node.id r × Adds s s'

module _ (F : Type 0) (node : RequirementNode) where
  pub apply_all-Ends :
      (cs : List CourseCandidate) (s : AuditState)
      → Ends F (apply_all node cs s) (λ _ s'. Adds s s')
  unfolding apply_all
  apply_all-Ends [] s = Adds-refl s
  apply_all-Ends (c ∷ cs) s =
      Ends-bind F _ (λ _ s'. Adds s s') (reserve c.source_key node.allows_overlap) _ s
        (reserve-Ends c.source_key node.allows_overlap s F)
        λ shared s₁ p.
          Ends-bind F _ (λ _ s'. Adds s s') (apply_all node cs) _ s₁ (apply_all-Ends cs s₁)
            λ rest s₂ q. Adds-trans p.1 q

  apply_waiver-Ends :
      (ctx : AuditContext) (c : CourseCandidate) (s : AuditState)
      → Ends F (apply_waiver ctx node c s) (λ r s'. Reports node r s s')
  unfolding apply_waiver
  apply_waiver-Ends ctx c s =
      Ends-bind F _ (λ r s'. Reports node r s s') (reserve c.source_key node.allows_overlap) _ s
        (reserve-Ends c.source_key node.allows_overlap s F)
        λ shared s₁ p. (result-IsReport node _, p.1)

  apply_best-Ends :
      (ctx : AuditContext) (required : Credits) (c : CourseCandidate) (s : AuditState)
      → Ends F (apply_best ctx node required c s) (λ r s'. Reports node r s s')
  unfolding apply_best
  apply_best-Ends ctx required c s =
      Ends-bind F _ (λ r s'. Reports node r s s') (reserve c.source_key node.allows_overlap) _ s
        (reserve-Ends c.source_key node.allows_overlap s F)
        λ shared s₁ p. (result-IsReport node _, p.1)

  -- A result that is followed by no other change of the state.
  reported :
      {r : RequirementResult} {s s₁ : AuditState} {s₂ : AuditState}
      → IsReport node.id r
      → Adds s s₁
      → Adds s₁ s₂
      → Reports node r s s₂
  reported h p q = (h, Adds-trans p q)

module _ (F : Type 0) (ctx : AuditContext) (node : RequirementNode) (closed : Closed F ctx) where
  pick_option-Ends :
      (os : List RequirementCourseOption)
      → All (λ (o : RequirementCourseOption). Readable F ctx o.course_id) os
      → (required : Credits) → (s : AuditState)
      → Ends F (pick_option ctx node required os s) (λ _ s'. Adds s s')
  unfolding pick_option
  pick_option-Ends [] h required s = Adds-refl s
  pick_option-Ends (o ∷ os) h required s =
      Ends-bind F _ (λ _ s'. Adds s s') (course_of ctx o.course_id) _ s
        (course_of-Ends F ctx node o.course_id h.0 s)
        λ course s₁ p.
          Ends-bind F _ (λ _ s'. Adds s s') (course_candidates ctx node o.course_id _) _ s₁
            (course_candidates-Ends F ctx node closed o.course_id _ h.0 s₁)
            λ cs s₂ q.
              let before = Adds-trans (OnlyWarns→Adds p) (OnlyWarns→Adds q.1) in
              Ends-option F (λ _ s'. Adds s s') s₂
                (first_available_candidate s₂.used_sources node.allows_overlap cs) _ _
                (Ends-map F (λ _ s'. Adds s₂ s') (λ _ s'. Adds s s') _
                  (pick_option-Ends os h.1 (option_credits o course) s₂)
                  (λ _ _ r. Adds-trans before r))
                (λ c. before)

  pick_course-Ends :
      (os : List RequirementCourseOption)
      → All (λ (o : RequirementCourseOption). Readable F ctx o.course_id) os
      → (s : AuditState) → Ends F (pick_course ctx node os s) (λ r s'. Reports node r s s')
  unfolding pick_course no_candidate
  pick_course-Ends [] h s = (manual_review-IsReport node _, Adds-refl s)
  pick_course-Ends (o ∷ os) h s =
      Ends-bind F _ (λ r s'. Reports node r s s') (pick_option ctx node 0 (o ∷ os)) _ s
        (pick_option-Ends (o ∷ os) h 0 s)
        λ picked s₁ p.
          Ends-option F (λ r s'. Reports node r s s') s₁ picked.1 _ _ (result-IsReport node _, p)
            (λ c.
              Ends-map F (λ r s'. Reports node r s₁ s') (λ r s'. Reports node r s s') _
                (apply_best-Ends F node ctx picked.0 c s₁) (λ r s₂ q. (q.0, Adds-trans p q.1)))

  pub required_course-Ends :
      (s : AuditState) → Ends F (required_course ctx node s) (λ r s'. Reports node r s s')
  unfolding required_course
  required_course-Ends s =
      Ends-option F (λ r s'. Reports node r s s') s
        (first_available_candidate s.used_sources node.allows_overlap (waiver_candidates ctx node))
        _ _
        (pick_course-Ends (get_list node.id ctx.options_by_node)
          (All-get_list _ node.id ctx.options_by_node closed.options) s)
        (λ w. apply_waiver-Ends F node ctx w s)

  pub choose_candidates-Ends :
      (s : AuditState) → Ends F (choose_candidates ctx node s) (λ _ s'. OnlyWarns s s')
  unfolding choose_candidates
  choose_candidates-Ends s =
      Ends-bind F _ (λ _ s'. OnlyWarns s s') (gather _ (get_list node.id ctx.options_by_node)) _ s
        (gather-Ends F IsCandidate _ _
          (All-map
            (λ (o : RequirementCourseOption) (h : Readable F ctx o.course_id).
              course_candidates-Ends F ctx node closed o.course_id (option_grade node o) h)
            _ (All-get_list _ node.id ctx.options_by_node closed.options))
          s)
        λ found s₁ p. p.1

  choose_valid-Ends :
      (n : ℕ) (s : AuditState) → Ends F (choose_valid ctx node n s) (λ r s'. Reports node r s s')
  unfolding choose_valid
  choose_valid-Ends n s =
      Ends-bind F _ (λ r s'. Reports node r s s') (choose_candidates ctx node) _ s
        (choose_candidates-Ends s)
        λ cs s₁ p.
          Ends-bind F _ (λ r s'. Reports node r s s') (apply_all node _) _ s₁
            (apply_all-Ends F node _ s₁)
            λ applications s₂ q. (result-IsReport node _, Adds-trans (OnlyWarns→Adds p) q)

  pub choose_n-Ends : (s : AuditState) → Ends F (choose_n ctx node s) (λ r s'. Reports node r s s')
  unfolding choose_n
  choose_n-Ends s =
      Ends-option F (λ r s'. Reports node r s s') s (truthy node.choose_n) _ _
        (manual_review-IsReport node _, Adds-refl s) (λ n. choose_valid-Ends n s)

  courses_at_least-Ends :
      (n : ℕ) (s : AuditState)
      → Ends F (courses_at_least ctx node n s) (λ r s'. Reports node r s s')
  unfolding courses_at_least
  courses_at_least-Ends n s =
      Ends-bind F _ (λ r s'. Reports node r s s')
        (all_course_candidates ctx node node.minimum_grade) _ s
        (all_course_candidates-Ends F ctx node closed node.minimum_grade s)
        λ cs s₁ p.
          Ends-bind F _ (λ r s'. Reports node r s s') (apply_all node _) _ s₁
            (apply_all-Ends F node _ s₁)
            λ applications s₂ q. (result-IsReport node _, Adds-trans (OnlyWarns→Adds p.1) q)

  pub minimum_courses-Ends :
      (s : AuditState) → Ends F (minimum_courses ctx node s) (λ r s'. Reports node r s s')
  unfolding minimum_courses
  minimum_courses-Ends s =
      Ends-option F (λ r s'. Reports node r s s') s node.minimum_courses _ _
        (manual_review-IsReport node _, Adds-refl s) (λ n. courses_at_least-Ends n s)

  pub credit_summary-Ends :
      (s : AuditState) → Ends F (credit_summary ctx s) (λ _ s'. OnlyWarns s s')
  unfolding credit_summary
  credit_summary-Ends s =
      Ends-bind F _ (λ _ s'. OnlyWarns s s') (all_course_candidates ctx summary_node none) _ s
        (all_course_candidates-Ends F ctx summary_node closed none s) λ cs s₁ p. p.1

  pub total_credits-Ends :
      (s : AuditState) → Ends F (total_credits ctx node s) (λ r s'. Reports node r s s')
  unfolding total_credits
  total_credits-Ends s =
      Ends-bind F _ (λ r s'. Reports node r s s') (credit_summary ctx) _ s (credit_summary-Ends s)
        λ totals s₁ p. (result-IsReport node _, OnlyWarns→Adds p)
