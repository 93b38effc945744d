-- ===== src/DegreeAudit/Evaluators/Unreserved.antt =====
-- engine.py: `evaluate_credit_pool`, whose selection is made with overlap allowed.
use smart_academic_planning.Prelude.{
  true, List, [], ◌∷◌, ◌≡◌, refl, ap, sym, subst, ◌∙◌, filter_by, sum_if, ℕ, arith,
}
use smart_academic_planning.DegreeAudit.Records.{Uuid, RequirementNode}
use smart_academic_planning.DegreeAudit.Quantize.{quantize_credits}
use smart_academic_planning.DegreeAudit.Result.{SourceKey, RequirementResult}
use smart_academic_planning.DegreeAudit.Monad.{AuditState, Outcome, ok, raise}
use smart_academic_planning.DegreeAudit.Frames.{Ends, Ends-bind, Ends-map}
use smart_academic_planning.DegreeAudit.Allocator.{is_available}
use smart_academic_planning.DegreeAudit.Candidates.{CourseCandidate, sort_candidates}
use smart_academic_planning.DegreeAudit.Context.{AuditContext, all_course_candidates, note_course}
use smart_academic_planning.DegreeAudit.Context.Closed.{Closed, all_course_candidates-Ends}
use smart_academic_planning.DegreeAudit.Context.Eligible.{ReturnsAll}
use smart_academic_planning.DegreeAudit.Context.Ignores.{
  reserving, end_reserving, all_course_candidates-Ignores,
}
use smart_academic_planning.DegreeAudit.Status.{Status, credit_status}
use smart_academic_planning.DegreeAudit.Evaluators.Base.{result}
use smart_academic_planning.DegreeAudit.Evaluators.Selection.{
  passed_over, select_distinct, select_distinct_candidates,
}
use smart_academic_planning.DegreeAudit.Evaluators.Pools.{
  Pool, in_pool, apply_credits, evaluate_credit_pool,
}
use smart_academic_planning.DegreeAudit.Evaluators.Reports.Pools.{apply_credits-Ends}

-- Where overlap is allowed, the selection does not depend on the reservations.
select_distinct-overlap :
    (used others : List SourceKey) (seen : List Uuid) (cs : List CourseCandidate)
    → select_distinct used true seen cs ≡ select_distinct others true seen cs
unfolding select_distinct passed_over is_available
select_distinct-overlap used others seen [] = refl
select_distinct-overlap used others seen (c ∷ cs) = ground (
  arith,
  select_distinct-overlap used others seen cs,
  select_distinct-overlap used others (note_course c.course_id seen) cs,
)

-- The status and the completed credits of a pool, over the candidates that are selected of these
-- where nothing is reserved.
abbrev pool_selected : Pool → List CourseCandidate → List CourseCandidate
pool_selected pool cs = select_distinct_candidates [] true (filter_by (in_pool pool) cs)

abbrev completed_of : Pool → List CourseCandidate → ℕ
completed_of pool cs =
    sum_if (λ (c : CourseCandidate). c.is_completed) (λ c. c.credits) (pool_selected pool cs)

abbrev status_of : Pool → List CourseCandidate → Status
status_of pool cs =
    credit_status pool.required_credits (completed_of pool cs)
      (sum_if (λ (c : CourseCandidate). c.is_in_progress) (λ c. c.credits) (pool_selected pool cs))
      (sum_if (λ (c : CourseCandidate). c.is_planned) (λ c. c.credits) (pool_selected pool cs))

abbrev HasPoolFigures : Pool → List CourseCandidate → RequirementResult → Type 0
HasPoolFigures pool cs r =
    (r.status ≡ status_of pool cs) × (r.satisfied_credits ≡ quantize_credits (completed_of pool cs))

same_selection :
    (pool : Pool) (used : List SourceKey) (cs cs' : List CourseCandidate)
    → cs' ≡ cs
    → select_distinct_candidates used true (filter_by (in_pool pool) cs') ≡ pool_selected pool cs
unfolding select_distinct_candidates
same_selection pool used cs cs' e =
    ap (λ l. select_distinct used true [] (sort_candidates (filter_by (in_pool pool) l))) e
    ∙ select_distinct-overlap used [] [] (sort_candidates (filter_by (in_pool pool) cs))

module _ (ctx : AuditContext) (node : RequirementNode) (closed : Closed ⊥ ctx) (pool : Pool) where
  pool-HasPoolFigures :
      (s s₁ : AuditState) (cs : List CourseCandidate)
      → all_course_candidates ctx node node.minimum_grade s ≡ ok cs s₁
      → Ends ⊥ (evaluate_credit_pool node pool ctx s) (λ r _. HasPoolFigures pool cs r)
  unfolding evaluate_credit_pool result
  pool-HasPoolFigures s s₁ cs e =
      Ends-bind ⊥ (λ found _. found ≡ cs) (λ r _. HasPoolFigures pool cs r)
        (all_course_candidates ctx node node.minimum_grade) _ s
        (subst (λ o. Ends ⊥ o (λ found _. found ≡ cs)) (sym e) refl)
        λ found s₂ same.
          Ends-bind ⊥ _ (λ r _. HasPoolFigures pool cs r) (apply_credits node pool 0 _) _ s₂
            (apply_credits-Ends ⊥ ctx node closed pool _ 0 s₂)
            λ applications s₃ q.
              let chosen = same_selection pool s₂.used_sources cs found same in
              (
                ap
                    (λ l.
                      credit_status pool.required_credits
                        (sum_if (λ (c : CourseCandidate). c.is_completed) (λ c. c.credits) l)
                        (sum_if (λ (c : CourseCandidate). c.is_in_progress) (λ c. c.credits) l)
                        (sum_if (λ (c : CourseCandidate). c.is_planned) (λ c. c.credits) l))
                    chosen,
                ap
                    (λ l.
                      quantize_credits
                        (sum_if (λ (c : CourseCandidate). c.is_completed) (λ c. c.credits) l))
                    chosen,
              )

  -- In a context that names only courses it has, a credit pool returns from a state, and from the
  -- same state with any other sources reserved, with the same status and the same satisfied credits.
  pub evaluate_credit_pool_unreserved :
      (s : AuditState) (used : List SourceKey)
      → Ends ⊥ (evaluate_credit_pool node pool ctx s) (λ r _.
        Ends ⊥
          (evaluate_credit_pool node pool ctx (reserving used s))
          (λ q _. (q.status ≡ r.status) × (q.satisfied_credits ≡ r.satisfied_credits)))
  evaluate_credit_pool_unreserved s used =
      go (all_course_candidates ctx node node.minimum_grade s) refl
        (all_course_candidates-Ends ⊥ ctx node closed node.minimum_grade s)
    where
      go :
          (o : Outcome (List CourseCandidate))
          → all_course_candidates ctx node node.minimum_grade s ≡ o
          → Ends ⊥ o (λ found s'. ReturnsAll found s s')
          → Ends ⊥ (evaluate_credit_pool node pool ctx s) (λ r _.
            Ends ⊥
              (evaluate_credit_pool node pool ctx (reserving used s))
              (λ q _. (q.status ≡ r.status) × (q.satisfied_credits ≡ r.satisfied_credits)))
      go (raise x) e h = absurd h
      go (ok cs s₁) e h =
          Ends-map ⊥ (λ r _. HasPoolFigures pool cs r) _ (evaluate_credit_pool node pool ctx s)
            (pool-HasPoolFigures s s₁ cs e)
            λ r s₂ p.
              Ends-map ⊥ (λ q _. HasPoolFigures pool cs q) _
                (evaluate_credit_pool node pool ctx (reserving used s))
                (pool-HasPoolFigures (reserving used s) (reserving used s₁) cs (
                  all_course_candidates-Ignores ctx node node.minimum_grade s used
                  ∙ ap (end_reserving used) e))
                λ q s₃ p'. (p'.0 ∙ sym p.0, p'.1 ∙ sym p.1)
