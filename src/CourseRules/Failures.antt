-- ===== src/CourseRules/Failures.antt =====
-- course_rules.py: which failures `validate_course_rule_expression_tree` can raise.
use smart_academic_planning.Prelude.{
  ℕ, ◌≤◌, Bool, true, false, not, Option, none, some, List, [], ◌∷◌, ◌==◌, if◌then◌else◌, filter_by,
  any_by, map, length, All, All-map, ◌≡◌, ◌≢◌, refl, Bool-cases, ==_iff, inl, inr, arith,
}
use smart_academic_planning.DegreeAudit.Records.{Uuid}
use smart_academic_planning.Eligibility.Records.{CourseRuleExpression}
use smart_academic_planning.Eligibility.Evidence.{is_none}
use smart_academic_planning.Eligibility.Engine.{distinct_ids}
use smart_academic_planning.Eligibility.Tree.Depth.{
  HasDistinctIds, IsRow, rows-IsRow, unvisited_less, unvisited_nil,
}
use smart_academic_planning.CourseRules.{
  TreeFailure, belongs_to_several_rules, ids_not_unique, recursion_error, contains_cycles,
  VisitOutcome, at, failed, first_failure, check_parent, check_count, check_children, check_visits,
  children_of, node_id, has, no_visits, or_else, validate_from, validate_roots, all_distinct,
  is_root, validate_course_rule_expression_tree,
}
use smart_academic_planning.CourseRules.Walk.{IsBack, visit-IsBack}

length-distinct_ids_le : (seen ids : List Uuid) → length (distinct_ids seen ids) ≤ length ids
unfolding distinct_ids
length-distinct_ids_le seen [] = omega arith
length-distinct_ids_le seen (id ∷ ids) =
    let kept = length-distinct_ids_le seen ids in
    let added = length-distinct_ids_le (id ∷ seen) ids in ground arith

none_with :
    (id : Uuid) (seen : List Uuid) (es : List CourseRuleExpression)
    → All (λ (e : CourseRuleExpression). has e.id (id ∷ seen) ≡ false) es
    → any_by (λ (e : CourseRuleExpression). e.id == id) es ≡ false
none_with id seen [] h = refl
none_with id seen (e ∷ es) h = ground (arith, h.0, none_with id seen es h.1)

pub distinct-All :
    (seen : List Uuid) (es : List CourseRuleExpression)
    → length (distinct_ids seen (map node_id es)) ≡ length (map node_id es)
    → HasDistinctIds es × All (λ (e : CourseRuleExpression). has e.id seen ≡ false) es
distinct-All seen [] h = (tt, tt)
distinct-All seen (e ∷ es) h = elim (Bool-cases (any_by (λ s. s == e.id) seen)) [
  | inl old ↦
      let few = length-distinct_ids_le seen (map node_id es) in
      absurd (unfold distinct_ids in ground arith)
  | inr new ↦
      let rest = distinct-All (e.id ∷ seen) es (unfold distinct_ids in ground arith) in
      ((none_with e.id seen es rest.1, rest.0), (new, All-map (λ x k. ground arith) es rest.1))
]

-- The failure is about the structure of the tree: neither a cycle nor a stack that is used up.
abbrev pub IsStructural : Option TreeFailure → Type 0
IsStructural o = (o ≢ some recursion_error) × (o ≢ some contains_cycles)

or_else-IsStructural :
    (o p : Option TreeFailure) → IsStructural o → IsStructural p → IsStructural (or_else o p)
or_else-IsStructural none p h k = k
or_else-IsStructural (some e) p h k = h

first_failure-IsStructural :
    {A : Type 0} (test : A → Option TreeFailure) (xs : List A)
    → ((x : A) → IsStructural (test x))
    → IsStructural (first_failure test xs)
unfolding first_failure
first_failure-IsStructural test [] h = (λ e. ground arith, λ e. ground arith)
first_failure-IsStructural test (x ∷ xs) h =
    go (test x) (h x) (first_failure-IsStructural test xs h)
  where
    go :
        (o : Option TreeFailure)
        → IsStructural o
        → IsStructural (first_failure test xs)
        → IsStructural
            (elim o as (λ _. Option TreeFailure) [ some e ↦ some e | none ↦ first_failure test xs ])
    go none h rest = rest
    go (some e) h rest = h

check_parent-IsStructural :
    (nodes : List CourseRuleExpression) (node : CourseRuleExpression)
    → IsStructural (check_parent nodes node)
unfolding check_parent
check_parent-IsStructural nodes node = (λ e. ground arith, λ e. ground arith)

check_children-IsStructural :
    (nodes : List CourseRuleExpression) (node : CourseRuleExpression)
    → IsStructural (check_children (children_of nodes) node)
unfolding check_children check_count
check_children-IsStructural nodes node = (λ e. ground arith, λ e. ground arith)

check_visits-IsStructural :
    (nodes : List CourseRuleExpression) (path : List Uuid) (o : VisitOutcome)
    → IsBack path o
    → IsStructural (check_visits nodes o)
unfolding check_visits
check_visits-IsStructural nodes path (at v) h = (λ e. ground arith, λ e. ground arith)
check_visits-IsStructural nodes path (failed e) h = absurd h

abbrev pub IsRootOf : List CourseRuleExpression → CourseRuleExpression → Type 0
IsRootOf nodes root = IsRow nodes root × (root.parent_id ≡ none)

pub roots-IsRootOf :
    (nodes es : List CourseRuleExpression)
    → All (IsRow nodes) es
    → All (IsRootOf nodes) (filter_by is_root es)
roots-IsRootOf nodes [] h = tt
roots-IsRootOf nodes (e ∷ es) h = go e.parent_id refl (roots-IsRootOf nodes es h.1)
  where
    go :
        (p : Option Uuid)
        → e.parent_id ≡ p
        → All (IsRootOf nodes) (filter_by is_root es)
        → All
            (IsRootOf nodes)
            (if is_none p then e ∷ filter_by is_root es else filter_by is_root es)
    go none q rest = ((h.0, q), rest)
    go (some _) q rest = rest

validate_from-IsStructural :
    (depth : ℕ) (nodes : List CourseRuleExpression) (root : CourseRuleExpression)
    → All (IsRow nodes) nodes
    → IsRow nodes root
    → root.parent_id ≡ none
    → length nodes ≤ depth
    → IsStructural (validate_from depth nodes root)
unfolding validate_from
validate_from-IsStructural depth nodes root rows r top deep =
    let less = unvisited_less root [] nodes r.present refl in
    let all = unvisited_nil nodes in
    or_else-IsStructural _ _ (first_failure-IsStructural _ nodes (check_parent-IsStructural nodes))
      (or_else-IsStructural _ _
        (first_failure-IsStructural _ nodes (check_children-IsStructural nodes))
        (check_visits-IsStructural nodes [] _
          (visit-IsBack nodes depth root [] rows (r, top) (omega arith) no_visits refl)))

validate_roots-IsStructural :
    (depth : ℕ) (nodes roots : List CourseRuleExpression)
    → All (IsRow nodes) nodes
    → All (IsRootOf nodes) roots
    → length nodes ≤ depth
    → IsStructural (validate_roots depth nodes roots)
unfolding validate_roots
validate_roots-IsStructural depth nodes [] rows h deep = (λ e. ground arith, λ e. ground arith)
validate_roots-IsStructural depth nodes (root ∷ []) rows h deep =
    validate_from-IsStructural depth nodes root rows h.0.0 h.0.1 deep
validate_roots-IsStructural depth nodes (root ∷ other ∷ more) rows h deep =
    (λ e. ground arith, λ e. ground arith)

-- Where the stack is as deep as there are nodes, the validation neither uses it up nor reports a
-- cycle: nodes that form a cycle are reported as another failure.
pub validate_course_rule_expression_tree-IsStructural :
    (depth : ℕ) (nodes : List CourseRuleExpression)
    → length nodes ≤ depth
    → IsStructural (validate_course_rule_expression_tree depth nodes)
unfolding validate_course_rule_expression_tree
validate_course_rule_expression_tree-IsStructural depth [] deep =
    (λ e. ground arith, λ e. ground arith)
validate_course_rule_expression_tree-IsStructural depth (n ∷ ns) deep =
    go
      (not (
        length
          (distinct_ids [] (map (λ (node : CourseRuleExpression). node.course_rule_id) (n ∷ ns)))
        == 1))
      (all_distinct (map node_id (n ∷ ns))) refl
  where
    go :
        (several unique : Bool)
        → all_distinct (map node_id (n ∷ ns)) ≡ unique
        → IsStructural (
            if several
            then some belongs_to_several_rules
            else if not unique
            then some ids_not_unique
            else validate_roots depth (n ∷ ns) (filter_by is_root (n ∷ ns)))
    go true unique e = (λ q. ground arith, λ q. ground arith)
    go false false e = (λ q. ground arith, λ q. ground arith)
    go false true e =
        let rows = rows-IsRow (n ∷ ns) (distinct-All [] (n ∷ ns) ((==_iff _ _).0 e)).0 in
        validate_roots-IsStructural depth (n ∷ ns) (filter_by is_root (n ∷ ns)) rows
          (roots-IsRootOf (n ∷ ns) (n ∷ ns) rows) deep
