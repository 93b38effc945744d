-- ===== src/DegreeAudit/Evaluators/Reports/Pools.antt =====
-- engine.py: what `evaluate_credit_pool` and the evaluators that call it return.
use smart_academic_planning.Prelude.{◌+◌, List, [], ◌∷◌, leb, not, ◌&&◌, if◌then◌else◌}
use smart_academic_planning.DegreeAudit.Records.{Credits, RequirementNode}
use smart_academic_planning.DegreeAudit.Monad.{AuditState}
use smart_academic_planning.DegreeAudit.Allocator.{is_available}
use smart_academic_planning.DegreeAudit.Allocator.Exclusive.{Reserves, reserve-Ends}
use smart_academic_planning.DegreeAudit.Frames.{
  Ends, Ends-option, Ends-if, Ends-bool, Ends-map, Ends-bind, OnlyWarns→Adds, Adds, Adds-refl,
  Adds-trans,
}
use smart_academic_planning.DegreeAudit.Candidates.{CourseCandidate}
use smart_academic_planning.DegreeAudit.Context.{AuditContext, all_course_candidates}
use smart_academic_planning.DegreeAudit.Context.Closed.{Closed, all_course_candidates-Ends}
use smart_academic_planning.DegreeAudit.Evaluators.Pools.{
  Pool, take_source, apply_credits, evaluate_credit_pool, minimum_credits, course_level, residency,
}
use smart_academic_planning.DegreeAudit.Evaluators.Reports.{
  Reports, result-IsReport, manual_review-IsReport,
}

module _ (F : Type 0) (ctx : AuditContext) (node : RequirementNode) (closed : Closed F ctx) where
  module _ (pool : Pool) where
    take_source-Ends :
        (c : CourseCandidate) (s : AuditState)
        → Ends F (take_source node pool c s) (λ _ s'. Adds s s')
    unfolding take_source
    take_source-Ends c s =
        Ends-if F (λ _ s'. Adds s s') s pool.reserve_sources _ _
          (Ends-map F (Reserves c.source_key s) (λ _ s'. Adds s s') _
            (reserve-Ends c.source_key node.allows_overlap s F) (λ _ _ p. p.1))
          (Adds-refl s)

    pub apply_credits-Ends :
        (cs : List CourseCandidate) (applied : Credits) (s : AuditState)
        → Ends F (apply_credits node pool applied cs s) (λ _ s'. Adds s s')
    unfolding apply_credits
    apply_credits-Ends [] applied s = Adds-refl s
    apply_credits-Ends (c ∷ cs) applied s =
        Ends-if F (λ _ s'. Adds s s') s (leb pool.required_credits applied) _ _ (Adds-refl s)
          (Ends-bool F (λ _ s'. Adds s s') s
            (pool.reserve_sources
              && not (is_available s.used_sources c.source_key node.allows_overlap))
            _ _ (apply_credits-Ends cs applied s)
            (Ends-bind F _ (λ _ s'. Adds s s') (take_source node pool c) _ s (take_source-Ends c s)
              λ shared s₁ p.
                Ends-bind F _ (λ _ s'. Adds s s') (apply_credits node pool _ cs) _ s₁
                  (apply_credits-Ends cs (if c.is_completed then applied + c.credits else applied)
                    s₁)
                  λ rest s₂ q. Adds-trans p q))

    pub evaluate_credit_pool-Ends :
        (s : AuditState)
        → Ends F (evaluate_credit_pool node pool ctx s) (λ r s'. Reports node r s s')
    unfolding evaluate_credit_pool
    evaluate_credit_pool-Ends s =
        Ends-bind F _ (λ r s'. Reports node r s s')
          (all_course_candidates ctx node node.minimum_grade) _ s
          (all_course_candidates-Ends F ctx node closed node.minimum_grade s)
          λ cs s₁ p.
            Ends-bind F _ (λ r s'. Reports node r s s') (apply_credits node pool 0 _) _ s₁
              (apply_credits-Ends _ 0 s₁)
              λ applications s₂ q. (result-IsReport node _, Adds-trans (OnlyWarns→Adds p.1) q)

  pub minimum_credits-Ends :
      (s : AuditState) → Ends F (minimum_credits ctx node s) (λ r s'. Reports node r s s')
  unfolding minimum_credits
  minimum_credits-Ends s =
      Ends-option F (λ r s'. Reports node r s s') s node.minimum_credits _ _
        (manual_review-IsReport node _, Adds-refl s) (λ n. evaluate_credit_pool-Ends _ s)

  pub course_level-Ends :
      (s : AuditState) → Ends F (course_level ctx node s) (λ r s'. Reports node r s s')
  unfolding course_level
  course_level-Ends s =
      Ends-option F (λ r s'. Reports node r s s') s node.minimum_course_level _ _
        (manual_review-IsReport node _, Adds-refl s) (λ n. evaluate_credit_pool-Ends _ s)

  pub residency-Ends :
      (s : AuditState) → Ends F (residency ctx node s) (λ r s'. Reports node r s s')
  unfolding residency
  residency-Ends s =
      Ends-option F (λ r s'. Reports node r s s') s node.minimum_residency_credits _ _
        (manual_review-IsReport node _, Adds-refl s) (λ n. evaluate_credit_pool-Ends _ s)
