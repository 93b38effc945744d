-- ===== src/CourseRules.antt =====
-- apps/api/app/domain/course_rules.py: `validate_course_rule_expression_tree`. A function that raises
-- returns `some` failure. `visit` runs on fuel, which stands for Python's stack.
pub mod Walk
pub mod Failures
pub mod Arity
mod Tests
use smart_academic_planning.Prelude.{
  ℕ, zero, suc, Bool, true, false, not, ◌||◌, Option, none, some, List, [], ◌∷◌, Dict, get_list,
  ltb, ◌==◌, if◌then◌else◌, filter_by, any_by, map, length,
}
use smart_academic_planning.DegreeAudit.Records.{Uuid}
use smart_academic_planning.DegreeAudit.Index.{group_from}
use smart_academic_planning.Eligibility.Records.{CourseRuleExpression, CourseRuleExpressionNodeType}
use smart_academic_planning.Eligibility.Evidence.{is_none}
use smart_academic_planning.Eligibility.Engine.{distinct_ids}

-- The messages of CourseRuleExpressionValidationError, and Python's RecursionError.
pub data TreeFailure : Type 0 where
  requires_a_root belongs_to_several_rules ids_not_unique not_one_root : TreeFailure
  parents_itself parent_not_in_tree not_without_one_child : TreeFailure
  operator_without_children leaf_with_children contains_cycles : TreeFailure
  disconnected_nodes recursion_error : TreeFailure

-- A loop whose body may raise.
unfoldable pub first_failure {ℓ} :
    {A : Type ℓ} → (A → Option TreeFailure) → List A → Option TreeFailure
first_failure test [] = none
first_failure test (x ∷ xs) = elim (test x) [ some e ↦ some e | none ↦ first_failure test xs ]

abbrev pub node_id : CourseRuleExpression → Uuid
node_id node = node.id

abbrev pub in_tree : List CourseRuleExpression → Uuid → Bool
in_tree nodes id = any_by (λ (node : CourseRuleExpression). node.id == id) nodes

-- The body of the loop that fills `children_by_parent`.
unfoldable pub check_parent : List CourseRuleExpression → CourseRuleExpression → Option TreeFailure
check_parent nodes node = elim node.parent_id [
  | none ↦ none
  | some parent ↦
      if parent == node.id
      then some parents_itself
      else if in_tree nodes parent
      then none
      else some parent_not_in_tree
]

unfoldable pub children_of : List CourseRuleExpression → Dict (List CourseRuleExpression)
children_of nodes = group_from (λ (node : CourseRuleExpression). node.parent_id) [] nodes

-- The tests of a node's number of children.
unfoldable pub check_count : CourseRuleExpressionNodeType → ℕ → Option TreeFailure
check_count CourseRuleExpressionNodeType.not count =
    if count == 1 then none else some not_without_one_child
check_count CourseRuleExpressionNodeType.and count =
    if ltb count 2 then some operator_without_children else none
check_count CourseRuleExpressionNodeType.or count =
    if ltb count 2 then some operator_without_children else none
check_count _ count = if count == 0 then none else some leaf_with_children

unfoldable pub check_children :
    Dict (List CourseRuleExpression) → CourseRuleExpression → Option TreeFailure
check_children children node = check_count node.node_type (length (get_list node.id children))

-- The sets that `visit` shares with the function.
pub record Visits : Type 0 where
  pub visiting : List Uuid
  pub visited : List Uuid

pub data VisitOutcome : Type 0 where
  at : Visits → VisitOutcome
  failed : TreeFailure → VisitOutcome

abbrev pub then_visit : VisitOutcome → (Visits → VisitOutcome) → VisitOutcome
then_visit (at v) f = f v
then_visit (failed e) f = failed e

abbrev pub has : Uuid → List Uuid → Bool
has id ids = any_by (λ i. i == id) ids

-- `visiting.add(id)`
abbrev pub enter : Uuid → Visits → Visits
enter id v = record v { visiting = id ∷ v.visiting }

-- `visiting.remove(id)`, `visited.add(id)`
abbrev pub leave : Uuid → Visits → Visits
leave id v = record {
  visiting = filter_by (λ i. not (i == id)) v.visiting;
  visited = if has id v.visited then v.visited else id ∷ v.visited;
}

-- The loop over the children, over the call that it makes for each.
unfoldable pub visit_children :
    (Uuid → Visits → VisitOutcome) → List CourseRuleExpression → Visits → VisitOutcome
visit_children visit_child [] v = at v
visit_children visit_child (c ∷ cs) v =
    then_visit (visit_child c.id v) (λ w. visit_children visit_child cs w)

unfoldable pub visit : ℕ → Dict (List CourseRuleExpression) → Uuid → Visits → VisitOutcome
visit zero children id v = failed recursion_error
visit (suc depth) children id v =
    if has id v.visiting
    then failed contains_cycles
    else if has id v.visited
    then at v
    else then_visit (visit_children (visit depth children) (get_list id children) (enter id v))
        (λ w. at (leave id w))

abbrev pub no_visits : Visits
no_visits = record { visiting = []; visited = [] }

-- The end of the function: whether all nodes have been visited.
unfoldable pub check_visits : List CourseRuleExpression → VisitOutcome → Option TreeFailure
check_visits nodes (failed e) = some e
check_visits nodes (at v) =
    if length v.visited == length nodes then none else some disconnected_nodes

abbrev pub or_else : Option TreeFailure → Option TreeFailure → Option TreeFailure
or_else (some e) next = some e
or_else none next = next

-- What follows the choice of the root.
unfoldable pub validate_from :
    ℕ → List CourseRuleExpression → CourseRuleExpression → Option TreeFailure
validate_from depth nodes root = or_else (first_failure (check_parent nodes) nodes) (
    or_else (first_failure (check_children (children_of nodes)) nodes)
      (check_visits nodes (visit depth (children_of nodes) root.id no_visits)))

unfoldable pub validate_roots :
    ℕ → List CourseRuleExpression → List CourseRuleExpression → Option TreeFailure
validate_roots depth nodes (root ∷ []) = validate_from depth nodes root
validate_roots depth nodes _ = some not_one_root

abbrev pub all_distinct : List Uuid → Bool
all_distinct ids = length (distinct_ids [] ids) == length ids

abbrev pub is_root : CourseRuleExpression → Bool
is_root node = is_none node.parent_id

unfoldable pub validate_course_rule_expression_tree :
    ℕ → List CourseRuleExpression → Option TreeFailure
validate_course_rule_expression_tree depth [] = some requires_a_root
validate_course_rule_expression_tree depth (n ∷ ns) =
    let nodes = n ∷ ns in
    if not (
      length (distinct_ids [] (map (λ (node : CourseRuleExpression). node.course_rule_id) nodes))
      == 1)
    then some belongs_to_several_rules
    else if not (all_distinct (map node_id nodes))
    then some ids_not_unique
    else validate_roots depth nodes (filter_by is_root nodes)
