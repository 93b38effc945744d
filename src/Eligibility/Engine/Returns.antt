-- ===== src/Eligibility/Engine/Returns.antt =====
-- engine.py: the outcomes of `_build_context` and of `evaluate`.
use smart_academic_planning.Prelude.{
  ℕ, suc, ◌≤◌, Bool, true, false, Option, none, some, List, [], ◌∷◌, Dict, lookup, assign, values,
  ◌==◌, if◌then◌else◌, any_by, filter_by, length, map, All, ◌≡◌, refl, ◌↔◌, arith,
}
use smart_academic_planning.DegreeAudit.Records.{Uuid}
use smart_academic_planning.DegreeAudit.Grades.{GradePolicy}
use smart_academic_planning.DegreeAudit.Index.Rows.{assign-All}
use smart_academic_planning.Eligibility.Records.{CourseRule, CourseRuleExpression}
use smart_academic_planning.Eligibility.Result.{EligibilityRequestContext, EligibilityResult}
use smart_academic_planning.Eligibility.Checked.{Checked, ok, ◌>>=◌, IsOk, bind-IsOk, bind-IsOk_iff}
use smart_academic_planning.Eligibility.Evidence.{EligibilityTables}
use smart_academic_planning.Eligibility.Tree.{
  load_expressions, roots_from, children_by_parent, evaluate_expression_tree,
}
use smart_academic_planning.Eligibility.Tree.Depth.{HasDistinctIds, IsRow, rows-IsRow, root-IsOk}
use smart_academic_planning.Eligibility.Engine.Scope.{IsInScope, build_context-IsOk}
use smart_academic_planning.Eligibility.Engine.{
  RuleOutcome, missing_tree, evaluated_rule, EligibilityRequest, build_context, load_rules,
  evaluate_rule, evaluate_rules_from, evaluate_rules, evaluate,
}

-- A root of the rows.
abbrev pub IsRoot : List CourseRuleExpression → CourseRuleExpression → Type 0
IsRoot es e = IsRow es e × (e.parent_id ≡ none)

module _ (es : List CourseRuleExpression) where
  roots_from-IsRoot :
      (roots : Dict CourseRuleExpression) (xs : List CourseRuleExpression)
      → All (IsRoot es) (values roots)
      → All (IsRow es) xs
      → All (IsRoot es) (values (roots_from roots xs))
  unfolding roots_from
  roots_from-IsRoot roots [] h k = h
  roots_from-IsRoot roots (e ∷ xs) h k =
      roots_from-IsRoot
        (elim e.parent_id as (λ _. Dict CourseRuleExpression) [
          | none ↦ assign e.course_rule_id e roots
          | some _ ↦ roots
        ])
        xs (added e.parent_id refl) k.1
    where
      added :
          (p : Option Uuid)
          → e.parent_id ≡ p
          → All (IsRoot es) (
              values (elim p as (λ _. Dict CourseRuleExpression) [
                | none ↦ assign e.course_rule_id e roots
                | some _ ↦ roots
              ]))
      added none q = assign-All (λ x. x.id) (IsRoot es) e.course_rule_id e roots h (k.0, q)
      added (some _) q = h

-- What holds of every value of a dictionary holds of the one that is looked up.
abbrev AtFound {κ} : (CourseRuleExpression → Type κ) → Option CourseRuleExpression → Type κ
AtFound P none = Unit
AtFound P (some e) = P e

lookup-All {κ} :
    (P : CourseRuleExpression → Type κ) (k : ℕ) (d : Dict CourseRuleExpression)
    → All P (values d)
    → AtFound P (lookup k d)
unfolding lookup
lookup-All P k [] h = tt
lookup-All P k ((j, v) ∷ d) h = go (j == k) (lookup-All P k d h.1)
  where
    go : (hit : Bool) → AtFound P (lookup k d) → AtFound P (if hit then some v else lookup k d)
    go true rest = h.0
    go false rest = rest

any-filter :
    (q p : CourseRuleExpression → Bool) (es : List CourseRuleExpression)
    → any_by q es ≡ false
    → any_by q (filter_by p es) ≡ false
any-filter q p [] h = refl
any-filter q p (e ∷ es) h = ground (arith, any-filter q p es)

filter-HasDistinctIds :
    (p : CourseRuleExpression → Bool) (es : List CourseRuleExpression)
    → HasDistinctIds es
    → HasDistinctIds (filter_by p es)
filter-HasDistinctIds p [] h = tt
filter-HasDistinctIds p (e ∷ es) h =
    go (p e) (filter-HasDistinctIds p es h.1) (any-filter (λ x. x.id == e.id) p es h.0)
  where
    go :
        (b : Bool)
        → HasDistinctIds (filter_by p es)
        → any_by (λ (x : CourseRuleExpression). x.id == e.id) (filter_by p es) ≡ false
        → HasDistinctIds (if b then e ∷ filter_by p es else filter_by p es)
    go true rest new = (new, rest)
    go false rest new = rest

length-filter_le :
    (p : CourseRuleExpression → Bool) (es : List CourseRuleExpression)
    → length (filter_by p es) ≤ length es
length-filter_le p [] = omega arith
length-filter_le p (e ∷ es) = let rest = length-filter_le p es in ground arith

module _ (db : EligibilityTables) (policy : GradePolicy) (depth : ℕ) where
  module _ (context : EligibilityRequestContext) (es : List CourseRuleExpression)
      (rows : All (IsRow es) es) (deep : length es ≤ depth) where
    evaluate_rule-IsOk :
        (roots : Dict CourseRuleExpression) (display_order : ℕ) (rule : CourseRule)
        → All (IsRoot es) (values roots)
        → IsOk
            (evaluate_rule db policy depth context roots (children_by_parent es) display_order rule)
    unfolding evaluate_rule
    evaluate_rule-IsOk roots display_order rule h =
        go (lookup rule.id roots) (lookup-All (IsRoot es) rule.id roots h)
      where
        go :
            (found : Option CourseRuleExpression)
            → AtFound (IsRoot es) found
            → IsOk (elim found as (λ _. Checked RuleOutcome) [
              | none ↦ ok (missing_tree display_order rule)
              | some root ↦
                  evaluate_expression_tree db policy depth rule.rule_type context
                    (children_by_parent es)
                    root
                  >>= λ tree. ok (evaluated_rule display_order rule tree)
            ])
        go none r = tt
        go (some root) r =
            bind-IsOk _ _
              (root-IsOk db policy rule.rule_type context es depth root rows r.0 r.1 deep)
              (λ tree. tt)

    evaluate_rules_from-IsOk :
        (roots : Dict CourseRuleExpression) (display_order : ℕ) (rules : List CourseRule)
        → All (IsRoot es) (values roots)
        → IsOk (
            evaluate_rules_from db policy depth context roots
              (children_by_parent es)
              display_order
              rules)
    unfolding evaluate_rules_from
    evaluate_rules_from-IsOk roots display_order [] h = tt
    evaluate_rules_from-IsOk roots display_order (rule ∷ rules) h =
        bind-IsOk
          (evaluate_rule db policy depth context roots (children_by_parent es) display_order rule) _
          (evaluate_rule-IsOk roots display_order rule h)
          λ outcome.
            bind-IsOk
              (evaluate_rules_from db policy depth context roots (children_by_parent es)
                (suc display_order) rules)
              _ (evaluate_rules_from-IsOk roots (suc display_order) rules h) λ outcomes. tt

  pub evaluate_rules-IsOk :
      (context : EligibilityRequestContext) (rules : List CourseRule)
      → HasDistinctIds db.expressions
      → length db.expressions ≤ depth
      → IsOk (evaluate_rules db policy depth context rules)
  unfolding evaluate_rules
  evaluate_rules-IsOk context [] distinct deep = tt
  evaluate_rules-IsOk context (rule ∷ rules) distinct deep =
      let es = load_expressions db.expressions (map (λ (r : CourseRule). r.id) (rule ∷ rules)) in
      let rows : All (IsRow es) es =
        rows-IsRow es
          (unfold load_expressions in filter-HasDistinctIds _ db.expressions distinct) in
      let few : length es ≤ length db.expressions =
        unfold load_expressions in length-filter_le _ db.expressions in
      bind-IsOk _ _
        (evaluate_rules_from-IsOk context es rows (omega arith) (roots_from [] es) 0 (rule ∷ rules)
          (roots_from-IsRoot es [] es tt rows))
        (λ outcomes. tt)

  reviewed_or_rules-IsOk :
      (reviewed : Option EligibilityResult) (m : Checked EligibilityResult)
      → IsOk m
      → IsOk (elim reviewed as (λ _. Checked EligibilityResult) [ some r ↦ ok r | none ↦ m ])
  reviewed_or_rules-IsOk none m h = h
  reviewed_or_rules-IsOk (some r) m h = tt

  -- Where no two expressions have one id and the stack is as deep as there are expressions, a check
  -- returns a result exactly if the request is in scope, whatever cycles the parents form.
  pub evaluate-IsOk :
      (reviewed_result : EligibilityRequestContext → Option EligibilityResult)
      (request : EligibilityRequest)
      → HasDistinctIds db.expressions
      → length db.expressions ≤ depth
      → IsOk (evaluate db policy depth reviewed_result request) ↔ IsInScope db request
  unfolding evaluate
  evaluate-IsOk reviewed_result request distinct deep =
      let built = build_context-IsOk db request in
      let whole = bind-IsOk_iff (build_context db request) _ λ context.
        reviewed_or_rules-IsOk (reviewed_result context) _
          (evaluate_rules-IsOk context (load_rules db context) distinct deep) in
      (λ h. built.0 (whole.0 h), λ h. whole.1 (built.1 h))
