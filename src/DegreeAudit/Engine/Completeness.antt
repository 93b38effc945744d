-- ===== src/DegreeAudit/Engine/Completeness.antt =====
-- engine.py: the report that `evaluate` returns, for a context that is given.
use smart_academic_planning.Prelude.{
  ◌∙◌, ap, ℕ, ◌<◌, ◌==◌, true, false, some, List, [], ◌∷◌, ◌++◌, Dict, lookup, values, Bool-cases,
  ◌≡◌, refl, subst, ◌↔◌, inl, inr, All, All-map, Perm, IsSorted, sorted-perm, sorted-IsSorted,
  arith,
}
use mathlib.Core.List.{Mem, mem-cons_self, mem-cons_of_mem, append_assoc}
use mathlib.Core.List.Perm
use smart_academic_planning.DegreeAudit.Keys.{entry_leb-total, entry_leb_trans}
use smart_academic_planning.DegreeAudit.Records.{Uuid, RequirementNode, completed}
use smart_academic_planning.DegreeAudit.Result.{
  RequirementResult, DegreeAuditResult, AuditWarningResult,
}
use smart_academic_planning.DegreeAudit.Monad.{AuditState}
use smart_academic_planning.DegreeAudit.Frames.{Ends, Ends-bind}
use smart_academic_planning.DegreeAudit.Context.{AuditContext, credit_summary, summary_node}
use smart_academic_planning.DegreeAudit.Context.Closed.{Closed}
use smart_academic_planning.DegreeAudit.Evaluators.Reports.{IsReport, credit_summary-Ends}
use smart_academic_planning.DegreeAudit.Engine.Registry.{evaluate_all}
use smart_academic_planning.DegreeAudit.Engine.Report.{
  result_leb, sort_requirements, make_report, evaluate_context, run_status,
}
use smart_academic_planning.DegreeAudit.Engine.Recursion.{Consistent, IsRanked}
use smart_academic_planning.DegreeAudit.Engine.Total.{HasReport, evaluate_all_total}

mem-values_of_lookup {ℓ} :
    {V : Type ℓ} (k : ℕ) (v : V) (d : Dict V) → lookup k d ≡ some v → Mem v (values d)
unfolding lookup
mem-values_of_lookup k v [] h = cc
mem-values_of_lookup k v ((j, w) ∷ d) h = elim (Bool-cases (j == k)) [
  | inl hit ↦ subst (λ u. Mem u (w ∷ values d)) (ground arith) mem-cons_self
  | inr miss ↦ mem-cons_of_mem w (mem-values_of_lookup k v d (ground arith))
]

-- The requirements are in the order of (display_order, requirement_code, str(requirement_node_id)),
-- and are those given.
pub sort_requirements-IsSorted :
    (rs : List RequirementResult)
    → IsSorted result_leb (sort_requirements rs) × Perm (sort_requirements rs) rs
unfolding sort_requirements
sort_requirements-IsSorted rs =
    (sorted-IsSorted result_leb total trans rs, sorted-perm result_leb rs)
  where
    total : (x y : RequirementResult) → result_leb x y ≡ false → result_leb y x ≡ true
    total x y = unfold result_leb in entry_leb-total _ _

    trans :
        (x y z : RequirementResult)
        → result_leb x y ≡ true
        → result_leb y z ≡ true
        → result_leb x z ≡ true
    trans x y z = unfold result_leb in entry_leb_trans _ _ _

-- What a finished report of the context says, with the warnings that were there at the start.
pub record IsComplete (ctx : AuditContext) (s : AuditState) (rep : DegreeAuditResult) : Type 0 where
  pub in_order : IsSorted result_leb rep.requirements
  pub covers :
      All
        (λ n. (r : RequirementResult) × Mem r rep.requirements × IsReport n.id r)
        (values ctx.nodes_by_id)
  pub added : List AuditWarningResult
  pub keeps_warnings : rep.warnings ≡ s.warnings ++ added
  pub warned : (rep.status ≡ completed) ↔ (rep.warnings ≡ [])

appended_twice :
    (s₀ s₁ s₂ a b c : List AuditWarningResult)
    → s₁ ≡ s₀ ++ a
    → s₂ ≡ s₁ ++ b
    → s₂ ++ c ≡ s₀ ++ (a ++ (b ++ c))
appended_twice s₀ s₁ s₂ a b c e f =
    ap (λ l. l ++ c) (f ∙ ap (λ l. l ++ b) e)
    ∙ append_assoc (s₀ ++ a) b c
    ∙ append_assoc s₀ a (b ++ c)

run_status_iff : (ws : List AuditWarningResult) → (run_status ws ≡ completed) ↔ (ws ≡ [])
run_status_iff [] = (λ _. refl, λ _. refl)
run_status_iff (w ∷ ws) = (λ h. ground arith, λ h. ground arith)

module _ (rank : Uuid → ℕ) (ctx : AuditContext) (closed : Closed ⊥ ctx) (ranked : IsRanked rank ctx)
    (depth : ℕ) (deep_roots : All (λ (n : RequirementNode). rank n.id < depth) ctx.roots)
    (deep : All (λ (n : RequirementNode). rank n.id < depth) (values ctx.nodes_by_id)) where
  covers_sorted :
      (s : AuditState) (n : RequirementNode)
      → HasReport n s
      → (r : RequirementResult) × Mem r (sort_requirements (values s.evaluated)) × IsReport n.id r
  covers_sorted s n (r, stored, report) = (
    r,
    Perm.subset (Perm.symm (sort_requirements-IsSorted (values s.evaluated)).1) r
        (mem-values_of_lookup n.id r s.evaluated stored),
    report,
  )

  -- In a context that names only courses it has, with a tree of requirements that is acyclic and less
  -- deep than the stack, and from a state whose stored results are reports of their nodes, the audit
  -- returns a report: its requirements are sorted; each node of the context has one, whose remaining
  -- courses are those required less those satisfied, and whose remaining credits are whole tenths and at
  -- most a tenth away from the credits required less those satisfied; the warnings of the start stand first among its warnings; and its status is `completed` exactly if
  -- it has no warning.
  pub evaluate_context-IsComplete :
      (s : AuditState)
      → Consistent s
      → Ends ⊥ (evaluate_context depth ctx s) (λ rep s'. IsComplete ctx s rep)
  unfolding evaluate_context make_report
  evaluate_context-IsComplete s c =
      Ends-bind ⊥ _ (λ rep s'. IsComplete ctx s rep) (evaluate_all depth ctx) _ s
        (evaluate_all_total rank ctx closed ranked depth deep_roots deep s c)
        λ _ s₁ p.
          Ends-bind ⊥ _ (λ rep s'. IsComplete ctx s rep) (credit_summary ctx) _ s₁
            (credit_summary-Ends ⊥ ctx summary_node closed s₁)
            λ totals s₂ q. record {
              in_order = (sort_requirements-IsSorted (values s₁.evaluated)).0;
              covers = All-map (covers_sorted s₁) (values ctx.nodes_by_id) p.2;
              added = p.0.added ++ (q.added ++ _);
              keeps_warnings =
                  appended_twice s.warnings s₁.warnings s₂.warnings p.0.added q.added _ p.0.appended
                    q.appended;
              warned = run_status_iff _;
            }
