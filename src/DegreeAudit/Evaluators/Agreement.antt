-- ===== src/DegreeAudit/Evaluators/Agreement.antt =====
-- engine.py: the status and the remainders of the evaluators that count courses or credits.
use smart_academic_planning.Prelude.{
  ℕ, none, some, List, [], ◌+◌, ◌-◌, ◌*◌, ◌≤◌, min, ◌≡◌, refl, ◌↔◌, arith,
}
use smart_academic_planning.DegreeAudit.Records.{Credits, RequirementNode, satisfied}
use smart_academic_planning.DegreeAudit.Quantize.{tenth, quantize_credits}
use smart_academic_planning.DegreeAudit.Quantize.Nearest.{quantize_credits-eq-zero}
use smart_academic_planning.DegreeAudit.Result.{CourseApplicationResult, RequirementResult}
use smart_academic_planning.DegreeAudit.Monad.{AuditState}
use smart_academic_planning.DegreeAudit.Frames.{Ends, Ends-bind}
use smart_academic_planning.DegreeAudit.Context.{
  AuditContext, all_course_candidates, credit_summary,
}
use smart_academic_planning.DegreeAudit.Context.Closed.{Closed, all_course_candidates-Ends}
use smart_academic_planning.DegreeAudit.Status.{count_status, credit_status}
use smart_academic_planning.DegreeAudit.Status.Meaning.{
  count_status-eq-satisfied, credit_status-eq-satisfied,
}
use smart_academic_planning.DegreeAudit.Evaluators.Base.{result}
use smart_academic_planning.DegreeAudit.Evaluators.Selection.{apply_all}
use smart_academic_planning.DegreeAudit.Evaluators.Leaves.{
  choose_candidates, choose_valid, courses_at_least, asked_total, total_credits,
}
use smart_academic_planning.DegreeAudit.Evaluators.Pools.{Pool, apply_credits, evaluate_credit_pool}
use smart_academic_planning.DegreeAudit.Evaluators.Reports.{
  choose_candidates-Ends, credit_summary-Ends, apply_all-Ends,
}
use smart_academic_planning.DegreeAudit.Evaluators.Reports.Pools.{apply_credits-Ends}

-- The requirement is satisfied exactly if no credits and no courses remain.
abbrev pub Agrees : RequirementResult → Type 0
Agrees r = (r.status ≡ satisfied) ↔ ((r.remaining_credits ≡ 0) × (r.remaining_courses ≡ 0))

-- The requirement is satisfied exactly if the amount c reaches the required one. The amount is rounded
-- to a tenth for the report, where no credits remain exactly if at most half a tenth is missing.
pub record IsDecidedBy (required c : Credits) (r : RequirementResult) : Type 0 where
  pub status_meaning : (r.status ≡ satisfied) ↔ (required ≤ c)
  pub reported : r.satisfied_credits ≡ quantize_credits c
  pub nothing_left : (r.remaining_credits ≡ 0) ↔ (2 * required ≤ 2 * c + tenth)
  pub no_courses : r.remaining_courses ≡ 0

abbrev pub CreditsAgree : Credits → RequirementResult → Type 0
CreditsAgree required r = (c : Credits) × IsDecidedBy required c r

credits_agree :
    (node : RequirementNode) (required c i p : ℕ) (applications : List CourseApplicationResult)
    → CreditsAgree required (
        result node (record {
          status = credit_status required c i p;
          required_credits = some required;
          satisfied_credits = c;
          required_courses = none;
          satisfied_courses = 0;
          applications = applications;
          warnings = [];
        }))
unfolding result
credits_agree node required c i p applications =
    let meaning = credit_status-eq-satisfied required c i p in
    let zero = quantize_credits-eq-zero (required - c) in
    (
      c,
      record {
        status_meaning = meaning;
        reported = refl;
        nothing_left = (λ h. omega (arith, zero.0 h), λ h. zero.1 (omega (arith, h)));
        no_courses = refl;
      },
    )

quantized_zero : (c : Credits) → quantize_credits (0 - c) ≡ 0
quantized_zero c = (quantize_credits-eq-zero (0 - c)).1 (omega arith)

courses_agree :
    (required c i p credits : ℕ)
    → (count_status required c i p ≡ satisfied)
      ↔ ((quantize_credits (0 - credits) ≡ 0) × (required - c ≡ 0))
courses_agree required c i p credits =
    let meaning = count_status-eq-satisfied required c i p in
    (λ h. (quantized_zero credits, omega (arith, meaning.0 h)), λ h. meaning.1 (omega (arith, h.1)))

courses_agree_min :
    (required c i p credits : ℕ)
    → (count_status required c i p ≡ satisfied)
      ↔ ((quantize_credits (0 - credits) ≡ 0) × (required - min c required ≡ 0))
courses_agree_min required c i p credits =
    let meaning = count_status-eq-satisfied required c i p in
    (λ h. (quantized_zero credits, omega (arith, meaning.0 h)), λ h. meaning.1 (omega (arith, h.1)))

module _ (ctx : AuditContext) (node : RequirementNode) (closed : Closed ⊥ ctx) where
  -- A credit pool returns, and its result agrees with the exact credits.
  pub evaluate_credit_pool-Agrees :
      (pool : Pool) (s : AuditState)
      → Ends ⊥ (evaluate_credit_pool node pool ctx s) (λ r _. CreditsAgree pool.required_credits r)
  unfolding evaluate_credit_pool result
  evaluate_credit_pool-Agrees pool s =
      Ends-bind ⊥ _ (λ r _. CreditsAgree pool.required_credits r)
        (all_course_candidates ctx node node.minimum_grade) _ s
        (all_course_candidates-Ends ⊥ ctx node closed node.minimum_grade s)
        λ cs s₁ p.
          Ends-bind ⊥ _ (λ r _. CreditsAgree pool.required_credits r) (apply_credits node pool 0 _)
            _ s₁ (apply_credits-Ends ⊥ ctx node closed pool _ 0 s₁)
            λ applications s₂ q. credits_agree node pool.required_credits _ _ _ applications

  -- The result of a choice of n courses is satisfied exactly if nothing remains.
  pub choose_valid-Agrees :
      (n : ℕ) (s : AuditState) → Ends ⊥ (choose_valid ctx node n s) (λ r _. Agrees r)
  unfolding choose_valid result
  choose_valid-Agrees n s =
      Ends-bind ⊥ _ (λ r _. Agrees r) (choose_candidates ctx node) _ s
        (choose_candidates-Ends ⊥ ctx node closed s)
        λ cs s₁ p.
          Ends-bind ⊥ _ (λ r _. Agrees r) (apply_all node _) _ s₁ (apply_all-Ends ⊥ node _ s₁)
            λ applications s₂ q. courses_agree n _ _ _ _

  pub courses_at_least-Agrees :
      (n : ℕ) (s : AuditState) → Ends ⊥ (courses_at_least ctx node n s) (λ r _. Agrees r)
  unfolding courses_at_least result
  courses_at_least-Agrees n s =
      Ends-bind ⊥ _ (λ r _. Agrees r) (all_course_candidates ctx node node.minimum_grade) _ s
        (all_course_candidates-Ends ⊥ ctx node closed node.minimum_grade s)
        λ cs s₁ p.
          Ends-bind ⊥ _ (λ r _. Agrees r) (apply_all node _) _ s₁ (apply_all-Ends ⊥ node _ s₁)
            λ applications s₂ q. courses_agree_min n _ _ _ _

  pub total_credits-Agrees :
      (s : AuditState)
      → Ends ⊥ (total_credits ctx node s) (λ r _. CreditsAgree (asked_total ctx node) r)
  unfolding total_credits result
  total_credits-Agrees s =
      Ends-bind ⊥ _ (λ r _. CreditsAgree (asked_total ctx node) r) (credit_summary ctx) _ s
        (credit_summary-Ends ⊥ ctx node closed s)
        λ totals s₁ p. credits_agree node (asked_total ctx node) _ _ _ []
