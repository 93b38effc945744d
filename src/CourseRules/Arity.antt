-- ===== src/CourseRules/Arity.antt =====
-- course_rules.py: what the eligibility engine makes of a tree that the validation accepts.
use smart_academic_planning.Prelude.{
  ℕ, suc, ◌≤◌, Bool, true, false, not, Option, none, some, List, [], ◌∷◌, get_list, lookup, ◌==◌,
  ==_iff, if◌then◌else◌, filter_by, map, length, sorted, insert_sorted, All, All-map, All-map₂,
  All-filter, All-get_list, ◌≡◌, refl, ap, sym, ◌∙◌, arith,
}
use smart_academic_planning.DegreeAudit.Records.{Uuid}
use smart_academic_planning.DegreeAudit.Grades.{GradePolicy}
use smart_academic_planning.DegreeAudit.Index.Grouping.{
  has_key, get_list-group_by, get_list-group_from,
}
use smart_academic_planning.DegreeAudit.Index.Rows.{AtKey, group_by-Holds}
use smart_academic_planning.Eligibility.Records.{
  CourseRuleType, CourseRuleExpression, CourseRuleExpressionNodeType,
}
use smart_academic_planning.Eligibility.Result.{EligibilityRequestContext}
use smart_academic_planning.Eligibility.Checked.{ok, Ok-Returns}
use smart_academic_planning.Eligibility.Evidence.{EligibilityTables}
use smart_academic_planning.Eligibility.Engine.{distinct_ids}
use smart_academic_planning.Eligibility.Tree.{
  TreeResult, expression_leb, children_by_parent, evaluate_expression_tree,
}
use smart_academic_planning.Eligibility.Tree.Arity.{
  has_operands, TreeIsRolledUp, HasArity, evaluate_expression_tree-IsRolledUp,
}
use smart_academic_planning.Eligibility.Tree.Depth.{rows-IsRow, root-IsOk}
use smart_academic_planning.CourseRules.{
  TreeFailure, belongs_to_several_rules, ids_not_unique, first_failure, check_parent, check_count,
  check_children, children_of, node_id, or_else, validate_from, validate_roots, all_distinct,
  is_root, validate_course_rule_expression_tree,
}
use smart_academic_planning.CourseRules.Failures.{distinct-All, roots-IsRootOf}

length-insert_sorted {ℓ} :
    {A : Type ℓ} (le : A → A → Bool) (x : A) (ys : List A)
    → length (insert_sorted le x ys) ≡ suc (length ys)
unfolding insert_sorted
length-insert_sorted le x [] = refl
length-insert_sorted le x (y ∷ ys) = ground (arith, length-insert_sorted le x ys)

length-sorted {ℓ} :
    {A : Type ℓ} (le : A → A → Bool) (xs : List A) → length (sorted le xs) ≡ length xs
unfolding sorted
length-sorted le [] = refl
length-sorted le (x ∷ xs) = length-insert_sorted le x (sorted le xs) ∙ ap suc (length-sorted le xs)

-- The engine sorts the children that the validation counts.
same_count :
    (nodes : List CourseRuleExpression) (id : Uuid)
    → length (get_list id (children_by_parent nodes)) ≡ length (get_list id (children_of nodes))
unfolding children_by_parent children_of lookup
same_count nodes id =
    ap length (get_list-group_by (λ e. e.parent_id) expression_leb id nodes)
    ∙ length-sorted expression_leb (filter_by (λ e. has_key id e.parent_id) nodes)
    ∙ sym (ap length (get_list-group_from (λ e. e.parent_id) id [] nodes))

count-has_operands :
    (t : CourseRuleExpressionNodeType) (count : ℕ)
    → check_count t count ≡ none
    → has_operands t count ≡ true
unfolding check_count
count-has_operands t count h = ground arith

no_failure :
    {A : Type 0} (test : A → Option TreeFailure) (xs : List A)
    → first_failure test xs ≡ none
    → All (λ x. test x ≡ none) xs
unfolding first_failure
no_failure test [] h = tt
no_failure test (x ∷ xs) h = let both = go (test x) refl h in (both.0, no_failure test xs both.1)
  where
    go :
        (o : Option TreeFailure)
        → test x ≡ o
        → (elim o as (λ _. Option TreeFailure) [ some e ↦ some e | none ↦ first_failure test xs ])
          ≡ none
        → (test x ≡ none) × (first_failure test xs ≡ none)
    go none e k = (e, k)
    go (some f) e k = ground arith

or_else-none : (o p : Option TreeFailure) → or_else o p ≡ none → (o ≡ none) × (p ≡ none)
or_else-none none p h = (refl, h)
or_else-none (some e) p h = ground arith

-- The ids of accepted nodes are unique, and the tests of their children passed.
abbrev IsAccepted : List CourseRuleExpression → Type 0
IsAccepted nodes =
    (all_distinct (map node_id nodes) ≡ true)
    × (first_failure (check_children (children_of nodes)) nodes ≡ none)

roots-accepted :
    (depth : ℕ) (nodes roots : List CourseRuleExpression)
    → validate_roots depth nodes roots ≡ none
    → first_failure (check_children (children_of nodes)) nodes ≡ none
unfolding validate_roots validate_from
roots-accepted depth nodes [] h = ground arith
roots-accepted depth nodes (root ∷ []) h =
    let rest = (or_else-none (first_failure (check_parent nodes) nodes) _ h).1 in
    (or_else-none (first_failure (check_children (children_of nodes)) nodes) _ rest).0
roots-accepted depth nodes (root ∷ other ∷ more) h = ground arith

validated-IsAccepted :
    (depth : ℕ) (nodes : List CourseRuleExpression)
    → validate_course_rule_expression_tree depth nodes ≡ none
    → IsAccepted nodes
unfolding validate_course_rule_expression_tree
validated-IsAccepted depth [] h = ground arith
validated-IsAccepted depth (n ∷ ns) h =
    go
      (not (
        length
          (distinct_ids [] (map (λ (node : CourseRuleExpression). node.course_rule_id) (n ∷ ns)))
        == 1))
      (all_distinct (map node_id (n ∷ ns))) refl h
  where
    go :
        (several unique : Bool)
        → all_distinct (map node_id (n ∷ ns)) ≡ unique
        → (if several
            then some belongs_to_several_rules
            else if not unique
            then some ids_not_unique
            else validate_roots depth (n ∷ ns) (filter_by is_root (n ∷ ns)))
          ≡ none
        → IsAccepted (n ∷ ns)
    go true unique e k = ground arith
    go false false e k = ground arith
    go false true e k = (e, roots-accepted depth (n ∷ ns) (filter_by is_root (n ∷ ns)) k)

module _ (db : EligibilityTables) (policy : GradePolicy) (rule_type : CourseRuleType)
    (context : EligibilityRequestContext) (nodes : List CourseRuleExpression) where
  -- The engine's children of the node are as many as its type asks for.
  abbrev FitsType : CourseRuleExpression → Type 0
  FitsType = HasArity db policy rule_type context (children_by_parent nodes)

  checked-FitsType :
      (e : CourseRuleExpression) → check_children (children_of nodes) e ≡ none → FitsType e
  unfolding check_children
  checked-FitsType e fits =
      ap (has_operands e.node_type) (same_count nodes e.id)
      ∙ count-has_operands e.node_type (length (get_list e.id (children_of nodes))) fits

  accepted-FitsType : IsAccepted nodes → All FitsType nodes
  accepted-FitsType h =
      All-map checked-FitsType nodes (no_failure (check_children (children_of nodes)) nodes h.1)

  children-FitsType :
      All FitsType nodes → (k : ℕ) → All FitsType (get_list k (children_by_parent nodes))
  children-FitsType h k = All-get_list FitsType k (children_by_parent nodes) (
      unfold children_by_parent in
      group_by-Holds (λ _ e. FitsType e) (λ e. e.parent_id) expression_leb nodes
        (All-map (λ e fits. at_key e.parent_id e fits) nodes h))
    where
      at_key :
          (p : Option Uuid) (e : CourseRuleExpression) → FitsType e → AtKey (λ _ x. FitsType x) p e
      at_key none e fits = tt
      at_key (some id) e fits = fits

  -- Where validation accepts the nodes and the stack is as deep as there are nodes, the evaluation of
  -- each root returns, and no operator in its tree is reported as malformed.
  pub accepted_tree-IsRolledUp :
      (depth : ℕ)
      → validate_course_rule_expression_tree depth nodes ≡ none
      → length nodes ≤ depth
      → All
          (λ root.
            (t : TreeResult) × (evaluate_expression_tree db policy depth rule_type context
                (children_by_parent nodes)
                root
              ≡ ok t)
            × TreeIsRolledUp t)
          (filter_by is_root nodes)
  accepted_tree-IsRolledUp depth valid deep =
      let accepted = validated-IsAccepted depth nodes valid in
      let rows = rows-IsRow nodes (distinct-All [] nodes ((==_iff _ _).0 accepted.0)).0 in
      let fits = accepted-FitsType accepted in
      All-map₂
        (λ root r fit.
          Ok-Returns TreeIsRolledUp _
            (root-IsOk db policy rule_type context nodes depth root rows r.0 r.1 deep)
            (evaluate_expression_tree-IsRolledUp db policy rule_type context
              (children_by_parent nodes) (children-FitsType fits) depth root fit))
        (filter_by is_root nodes) (roots-IsRootOf nodes nodes rows)
        (All-filter FitsType is_root nodes fits)
