-- ===== src/DegreeAudit/Engine/Total.antt =====
-- engine.py: the calls of `evaluate_node` and the two loops of `evaluate`.
use smart_academic_planning.Prelude.{
  Bool-cases, ℕ, zero, suc, ◌<◌, Option, none, some, List, [], ◌∷◌, lookup, assign, lookup-assign,
  get_list, values, ◌==◌, ==_iff, if◌then◌else◌, ◌≡◌, refl, subst, sym, ◌∙◌, inl, inr, All, All-map,
  All-get_list_key, arith,
}
use mathlib.Core.List.{append-nil}
use smart_academic_planning.DegreeAudit.Records.{Uuid, RequirementNode}
use smart_academic_planning.DegreeAudit.Result.{RequirementResult}
use smart_academic_planning.DegreeAudit.Monad.{AuditState, Outcome, ok}
use smart_academic_planning.DegreeAudit.Frames.{
  Ends, Ends-map, Ends-bind, Extends, Extends-refl, Extends-trans,
}
use smart_academic_planning.DegreeAudit.Context.{AuditContext}
use smart_academic_planning.DegreeAudit.Context.Closed.{Closed}
use smart_academic_planning.DegreeAudit.Evaluators.{EvaluateNode}
use smart_academic_planning.DegreeAudit.Evaluators.Reports.{IsReport}
use smart_academic_planning.DegreeAudit.Engine.Registry.{
  dispatch, store, evaluate_new, evaluate_once, evaluate_node, evaluate_nodes, evaluate_all,
}
use smart_academic_planning.DegreeAudit.Engine.Recursion.{
  Consistent, IsRanked, Grows, Grows-refl, Grows-trans, Grows-weaken, Evaluated, Fresh,
  dispatch-Ends,
}

module _ (rank : Uuid → ℕ) (node : RequirementNode) (r : RequirementResult) where
  -- Storing a new report grows the state by one result.
  store-Grows :
      (s : AuditState)
      → lookup node.id s.evaluated ≡ none
      → IsReport node.id r
      → Grows rank (suc (rank node.id)) s (record s { evaluated = assign node.id r s.evaluated })
  store-Grows s missing report = record {
    extends = record {
      keeps_sources = λ key h. h;
      keeps_results = λ id q h. ground (arith, lookup-assign node.id id r s.evaluated);
      added = [];
      appended = sym (append-nil s.warnings);
    };
    consistent = λ c id q h. consistent id q c (lookup-assign node.id id r s.evaluated) h;
    within = λ id low. ground (arith, lookup-assign node.id id r s.evaluated);
  }
    where
      consistent :
          (id : Uuid) (q : RequirementResult)
          → Consistent s
          → (lookup id (assign node.id r s.evaluated)
              ≡ (if node.id == id then some r else lookup id s.evaluated))
          → lookup id (assign node.id r s.evaluated) ≡ some q
          → IsReport id q
      consistent id q c e h = elim (Bool-cases (node.id == id)) [
        | inl same ↦
            let stored : r ≡ q = ground arith in
            let here : node.id ≡ id = (==_iff node.id id).0 same in
            subst (λ i. IsReport i q) here (subst (IsReport node.id) stored report)
        | inr other ↦ c id q (ground arith)
      ]

-- The node has a result, and the result is a report of it.
abbrev pub HasReport : RequirementNode → AuditState → Type 0
HasReport node s =
    (r : RequirementResult) × (lookup node.id s.evaluated ≡ some r) × IsReport node.id r

-- What the loops have done when they end.
abbrev pub Covered : List RequirementNode → AuditState → AuditState → Type 0
Covered nodes s s' = Extends s s' × Consistent s' × All (λ n. HasReport n s') nodes

HasReport-Extends :
    {s t : AuditState}
    → Extends s t
    → Consistent t
    → (node : RequirementNode) → HasReport node s
    → HasReport node t
HasReport-Extends x c node (r, stored, report) = (r, x.keeps_results node.id r stored, report)

module _ (rank : Uuid → ℕ) (ctx : AuditContext) (closed : Closed ⊥ ctx)
    (ranked : IsRanked rank ctx) where
  low_children :
      (node : RequirementNode)
      → All
          (λ (child : RequirementNode). rank child.id < rank node.id)
          (get_list node.id ctx.children_by_parent)
  low_children node =
      All-get_list_key (λ id (child : RequirementNode). rank child.id < rank id) node.id
        ctx.children_by_parent ranked

  -- A node that has no result yet: its result is stored.
  evaluate_new-Ends :
      (rec : EvaluateNode) (node : RequirementNode)
      → All
          (λ child. (s : AuditState) → Ends ⊥ (rec child s) (λ r s'. Evaluated rank child r s s'))
          (get_list node.id ctx.children_by_parent)
      → (s : AuditState) → lookup node.id s.evaluated ≡ none
      → Ends ⊥ (evaluate_new rec ctx node s) (λ r s'. Evaluated rank node r s s')
  unfolding evaluate_new store
  evaluate_new-Ends rec node calls s missing =
      Ends-bind ⊥ (λ r s'. Fresh rank node r s s') (λ r s'. Evaluated rank node r s s')
        (dispatch node.requirement_type rec ctx node) (store node.id) s
        (dispatch-Ends rank rec ctx node calls (low_children node) closed node.requirement_type s)
        λ r s₁ p. (
          ground (arith, lookup-assign node.id node.id r s₁.evaluated),
          Grows-trans rank (Grows-weaken rank (omega arith) p.1)
              (store-Grows rank node r s₁ (p.1.within node.id (omega arith) ∙ missing) p.0),
        )

  pub evaluate_node-Ends :
      (depth : ℕ) (node : RequirementNode)
      → rank node.id < depth
      → (s : AuditState)
      → Ends ⊥ (evaluate_node depth ctx node s) (λ r s'. Evaluated rank node r s s')
  unfolding evaluate_node evaluate_once
  evaluate_node-Ends zero node deep s = absurd (omega arith)
  evaluate_node-Ends (suc depth) node deep s =
      go (evaluate_node-Ends depth) (lookup node.id s.evaluated) refl
    where
      Calls : Type 0
      Calls =
          (child : RequirementNode)
          → rank child.id < depth
          → (s : AuditState)
          → Ends ⊥ (evaluate_node depth ctx child s) (λ r s'. Evaluated rank child r s s')

      calls :
          Calls
          → All
              (λ child.
                (s : AuditState)
                → Ends ⊥ (evaluate_node depth ctx child s) (λ r s'. Evaluated rank child r s s'))
              (get_list node.id ctx.children_by_parent)
      calls rec = All-map (λ child low. rec child (omega arith)) _ (low_children node)

      go :
          Calls
          → (o : Option RequirementResult) → lookup node.id s.evaluated ≡ o
          → Ends ⊥
              (elim o as (λ _. Outcome RequirementResult) [
                | some r ↦ ok r s
                | none ↦ evaluate_new (evaluate_node depth ctx) ctx node s
              ])
              (λ r s'. Evaluated rank node r s s')
      go rec (some r) e = (e, Grows-refl rank (suc (rank node.id)) s)
      go rec none e = evaluate_new-Ends (evaluate_node depth ctx) node (calls rec) s e

  evaluate_nodes-Ends :
      (depth : ℕ) (nodes : List RequirementNode)
      → All (λ (n : RequirementNode). rank n.id < depth) nodes
      → (s : AuditState) → Consistent s
      → Ends ⊥ (evaluate_nodes depth ctx nodes s) (λ _ s'. Covered nodes s s')
  unfolding evaluate_nodes
  evaluate_nodes-Ends depth [] deep s c = (Extends-refl s, c, tt)
  evaluate_nodes-Ends depth (n ∷ ns) deep s c =
      Ends-bind ⊥ _ (λ _ s'. Covered (n ∷ ns) s s') (evaluate_node depth ctx n) _ s
        (evaluate_node-Ends depth n deep.0 s)
        λ r s₁ p.
          let grown = p.1 in
          let c₁ = grown.consistent c in
          Ends-map ⊥ (λ _ s'. Covered ns s₁ s') (λ _ s'. Covered (n ∷ ns) s s')
            (evaluate_nodes depth ctx ns s₁) (evaluate_nodes-Ends depth ns deep.1 s₁ c₁)
            λ _ s₂ q. (
              Extends-trans grown.extends q.0,
              q.1,
              (HasReport-Extends q.0 q.1 n (r, p.0, c₁ n.id r p.0), q.2),
            )

  -- On closed references and an acyclic tree that is less deep than the stack, the two loops of
  -- `evaluate` return; each node then has a result that reports on it, and no result, reservation
  -- or warning of before is lost.
  pub evaluate_all_total :
      (depth : ℕ)
      → All (λ (n : RequirementNode). rank n.id < depth) ctx.roots
      → All (λ (n : RequirementNode). rank n.id < depth) (values ctx.nodes_by_id)
      → (s : AuditState) → Consistent s
      → Ends ⊥ (evaluate_all depth ctx s) (λ _ s'. Covered (values ctx.nodes_by_id) s s')
  unfolding evaluate_all
  evaluate_all_total depth deep_roots deep s c =
      Ends-bind ⊥ _ (λ _ s'. Covered (values ctx.nodes_by_id) s s')
        (evaluate_nodes depth ctx ctx.roots) _ s
        (evaluate_nodes-Ends depth ctx.roots deep_roots s c)
        λ _ s₁ p.
          Ends-map ⊥ (λ _ s'. Covered (values ctx.nodes_by_id) s₁ s')
            (λ _ s'. Covered (values ctx.nodes_by_id) s s')
            (evaluate_nodes depth ctx (values ctx.nodes_by_id) s₁)
            (evaluate_nodes-Ends depth (values ctx.nodes_by_id) deep s₁ p.1)
            λ _ s₂ q. (Extends-trans p.0 q.0, q.1, q.2)

  evaluate_node_stored :
      (again : ℕ) (node : RequirementNode) (r : RequirementResult) (s : AuditState)
      → lookup node.id s.evaluated ≡ some r
      → evaluate_node (suc again) ctx node s ≡ ok r s
  unfolding evaluate_node evaluate_once
  evaluate_node_stored again node r s e = ground arith

  -- In a context that names only courses it has, with an acyclic tree, the evaluation of a node that
  -- is less deep than the stack returns, and a second evaluation in the state that it leaves returns
  -- the same result and that state.
  pub evaluate_node_twice :
      (depth again : ℕ) (node : RequirementNode)
      → rank node.id < depth
      → (s : AuditState)
      → Ends ⊥
          (evaluate_node depth ctx node s)
          (λ r s'. evaluate_node (suc again) ctx node s' ≡ ok r s')
  evaluate_node_twice depth again node deep s =
      Ends-map ⊥ (λ r s'. Evaluated rank node r s s')
        (λ r s'. evaluate_node (suc again) ctx node s' ≡ ok r s') (evaluate_node depth ctx node s)
        (evaluate_node-Ends depth node deep s) (λ r s' p. evaluate_node_stored again node r s' p.0)
