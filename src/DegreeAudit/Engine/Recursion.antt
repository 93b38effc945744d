-- ===== src/DegreeAudit/Engine/Recursion.antt =====
-- engine.py: one call of `evaluate_node`, given what the calls for the children do.
use smart_academic_planning.Prelude.{
  ℕ, suc, ◌<◌, ◌≤◌, some, List, [], ◌∷◌, lookup, get_list, ◌≡◌, refl, sym, ap, ◌∙◌, All, arith,
}
use smart_academic_planning.DegreeAudit.Records.{Uuid, RequirementNode, RequirementType}
use smart_academic_planning.DegreeAudit.Result.{RequirementResult}
use smart_academic_planning.DegreeAudit.Monad.{AuditState, Outcome}
use smart_academic_planning.DegreeAudit.Frames.{
  Ends, Ends-map, Ends-bind, Adds, Adds→Extends, Extends, Extends-refl, Extends-trans,
}
use smart_academic_planning.DegreeAudit.Context.{AuditContext}
use smart_academic_planning.DegreeAudit.Context.Closed.{Closed}
use smart_academic_planning.DegreeAudit.Evaluators.{
  EvaluateNode, all_of, any_of, manual_review_only, evaluate_children, all_of_result, any_of_result,
}
use smart_academic_planning.DegreeAudit.Evaluators.Reports.{
  IsReport, Reports, result-IsReport, manual_review-IsReport, required_course-Ends, choose_n-Ends,
  minimum_courses-Ends, total_credits-Ends,
}
use smart_academic_planning.DegreeAudit.Evaluators.Reports.Pools.{
  minimum_credits-Ends, course_level-Ends, residency-Ends,
}
use smart_academic_planning.DegreeAudit.Engine.Registry.{dispatch}

-- Every stored result is a report of the node under whose id it is stored.
abbrev pub Consistent : AuditState → Type 0
Consistent s = (id : Uuid) (r : RequirementResult) → lookup id s.evaluated ≡ some r → IsReport id r

-- A ranking of the ids that falls from a parent to its children: there is no cycle.
abbrev pub IsRanked : (Uuid → ℕ) → AuditContext → Type 0
IsRanked rank ctx =
    All (λ e. All (λ (child : RequirementNode). rank child.id < rank e.0) e.1)
      ctx.children_by_parent

all_of_result-IsReport :
    (node : RequirementNode) (rs : List RequirementResult)
    → IsReport node.id (all_of_result node rs)
unfolding all_of_result
all_of_result-IsReport node [] = manual_review-IsReport node _
all_of_result-IsReport node (r ∷ rs) = result-IsReport node _

any_of_result-IsReport :
    (node : RequirementNode) (rs : List RequirementResult)
    → IsReport node.id (any_of_result node rs)
unfolding any_of_result
any_of_result-IsReport node [] = manual_review-IsReport node _
any_of_result-IsReport node (r ∷ rs) = result-IsReport node _

module _ (rank : Uuid → ℕ) where
  -- Only results of a rank below `bound` may have been added.
  abbrev pub Within : ℕ → AuditState → AuditState → Type 0
  Within bound s s' = (id : Uuid) → bound ≤ rank id → lookup id s'.evaluated ≡ lookup id s.evaluated

  pub record Grows (bound : ℕ) (s s' : AuditState) : Type 0 where
    pub extends : Extends s s'
    pub consistent : Consistent s → Consistent s'
    pub within : Within bound s s'

  pub Grows-refl : (bound : ℕ) (s : AuditState) → Grows bound s s
  Grows-refl bound s = record {
    extends = Extends-refl s;
    consistent = λ h. h;
    within = λ id h. refl;
  }

  pub Grows-trans :
      {bound : ℕ} {s t u : AuditState} → Grows bound s t → Grows bound t u → Grows bound s u
  Grows-trans h k = record {
    extends = Extends-trans h.extends k.extends;
    consistent = λ c. k.consistent (h.consistent c);
    within = λ id b. k.within id b ∙ h.within id b;
  }

  pub Grows-weaken : {a b : ℕ} {s s' : AuditState} → a ≤ b → Grows a s s' → Grows b s s'
  Grows-weaken l h = record {
    extends = h.extends;
    consistent = h.consistent;
    within = λ id k. h.within id (omega arith);
  }

  Adds→Grows : (bound : ℕ) {s s' : AuditState} → Adds s s' → Grows bound s s'
  Adds→Grows bound h = record {
    extends = Adds→Extends h;
    consistent = λ c id r e. c id r (ap (lookup id) (sym h.same_results) ∙ e);
    within = λ id _. ap (lookup id) h.same_results;
  }

  -- What a call for a node returns and leaves.
  abbrev pub Evaluated : RequirementNode → RequirementResult → AuditState → AuditState → Type 0
  Evaluated node r s s' = (lookup node.id s'.evaluated ≡ some r) × Grows (suc (rank node.id)) s s'

  -- A result that has not been stored yet.
  abbrev pub Fresh : RequirementNode → RequirementResult → AuditState → AuditState → Type 0
  Fresh node r s s' = IsReport node.id r × Grows (rank node.id) s s'

  module _ (rec : EvaluateNode) (ctx : AuditContext) where
    children-Ends :
        (bound : ℕ) (children : List RequirementNode)
        → All
            (λ child. (s : AuditState) → Ends ⊥ (rec child s) (λ r s'. Evaluated child r s s'))
            children
        → All (λ (child : RequirementNode). rank child.id < bound) children
        → (s : AuditState) → Ends ⊥ (evaluate_children rec children s) (λ _ s'. Grows bound s s')
    unfolding evaluate_children
    children-Ends bound [] h low s = Grows-refl bound s
    children-Ends bound (c ∷ cs) h low s =
        Ends-bind ⊥ _ (λ _ s'. Grows bound s s') (rec c) _ s (h.0 s)
          λ r s₁ p.
            Ends-bind ⊥ _ (λ _ s'. Grows bound s s') (evaluate_children rec cs) _ s₁
              (children-Ends bound cs h.1 low.1 s₁)
              λ rs s₂ q. Grows-trans (Grows-weaken low.0 p.1) q

    module _ (node : RequirementNode)
        (calls : All
          (λ child. (s : AuditState) → Ends ⊥ (rec child s) (λ r s'. Evaluated child r s s'))
          (get_list node.id ctx.children_by_parent))
        (low : All
          (λ (child : RequirementNode). rank child.id < rank node.id)
          (get_list node.id ctx.children_by_parent)) where
      all_of-Ends : (s : AuditState) → Ends ⊥ (all_of rec ctx node s) (λ r s'. Fresh node r s s')
      unfolding all_of
      all_of-Ends s =
          Ends-bind ⊥ _ (λ r s'. Fresh node r s s')
            (evaluate_children rec (get_list node.id ctx.children_by_parent)) _ s
            (children-Ends (rank node.id) _ calls low s)
            λ rs s₁ p. (all_of_result-IsReport node rs, p)

      any_of-Ends : (s : AuditState) → Ends ⊥ (any_of rec ctx node s) (λ r s'. Fresh node r s s')
      unfolding any_of
      any_of-Ends s =
          Ends-bind ⊥ _ (λ r s'. Fresh node r s s')
            (evaluate_children rec (get_list node.id ctx.children_by_parent)) _ s
            (children-Ends (rank node.id) _ calls low s)
            λ rs s₁ p. (any_of_result-IsReport node rs, p)

      module _ (closed : Closed ⊥ ctx) where
        leaf :
            (s : AuditState) (o : Outcome RequirementResult)
            → Ends ⊥ o (λ r s'. Reports node r s s')
            → Ends ⊥ o (λ r s'. Fresh node r s s')
        leaf s o h =
            Ends-map ⊥ (λ r s'. Reports node r s s') (λ r s'. Fresh node r s s') o h
              (λ r s' p. (p.0, Adds→Grows (rank node.id) p.1))

        pub dispatch-Ends :
            (type : RequirementType) (s : AuditState)
            → Ends ⊥ (dispatch type rec ctx node s) (λ r s'. Fresh node r s s')
        unfolding dispatch manual_review_only
        dispatch-Ends RequirementType.group s = all_of-Ends s
        dispatch-Ends RequirementType.all_of s = all_of-Ends s
        dispatch-Ends RequirementType.any_of s = any_of-Ends s
        dispatch-Ends RequirementType.required_course s =
            leaf s _ (required_course-Ends ⊥ ctx node closed s)
        dispatch-Ends RequirementType.capstone s =
            leaf s _ (required_course-Ends ⊥ ctx node closed s)
        dispatch-Ends RequirementType.choose_n s = leaf s _ (choose_n-Ends ⊥ ctx node closed s)
        dispatch-Ends RequirementType.minimum_credits s =
            leaf s _ (minimum_credits-Ends ⊥ ctx node closed s)
        dispatch-Ends RequirementType.minimum_courses s =
            leaf s _ (minimum_courses-Ends ⊥ ctx node closed s)
        dispatch-Ends RequirementType.course_level s =
            leaf s _ (course_level-Ends ⊥ ctx node closed s)
        dispatch-Ends RequirementType.residency s = leaf s _ (residency-Ends ⊥ ctx node closed s)
        dispatch-Ends RequirementType.total_credits s =
            leaf s _ (total_credits-Ends ⊥ ctx node closed s)
        dispatch-Ends RequirementType.minimum_grade s =
            (manual_review-IsReport node _, Grows-refl (rank node.id) s)
        dispatch-Ends RequirementType.exclusion s =
            (manual_review-IsReport node _, Grows-refl (rank node.id) s)
