-- ===== src/Eligibility/Tree/Depth.antt =====
-- engine.py: the depth of `_evaluate_expression_tree`. A node has one parent, and the root none, so
-- the way from the root to a node passes no node twice, whatever cycles the table has elsewhere.
use smart_academic_planning.Prelude.{
  ℕ, zero, suc, ◌≤◌, ◌<◌, Bool, true, false, not, Option, none, some, List, [], ◌∷◌, get_list, ◌==◌,
  ==_iff, if◌then◌else◌, any_by, count_by, length, All, All-map, All-map₂, All-get_list_key, ◌≡◌,
  refl, sym, ap, subst, ◌∙◌, Bool-cases, inl, inr, arith,
}
use smart_academic_planning.DegreeAudit.Records.{Uuid}
use smart_academic_planning.DegreeAudit.Grades.{GradePolicy}
use smart_academic_planning.DegreeAudit.Index.Rows.{AtKey, group_by-Holds}
use smart_academic_planning.Eligibility.Records.{CourseRuleType, CourseRuleExpression}
use smart_academic_planning.Eligibility.Result.{EligibilityRequestContext}
use smart_academic_planning.Eligibility.Checked.{IsOk, bind-IsOk, each-IsOk}
use smart_academic_planning.Eligibility.Evidence.{EligibilityTables}
use smart_academic_planning.Eligibility.Tree.{
  children_by_parent, expression_leb, evaluate_expression_tree,
}

-- The primary key of the table: no two expressions have one id.
abbrev pub HasDistinctIds : List CourseRuleExpression → Type 0
HasDistinctIds [] = Unit
HasDistinctIds (e ∷ es) =
    (any_by (λ (x : CourseRuleExpression). x.id == e.id) es ≡ false) × HasDistinctIds es

-- The parent of the row with an id.
unfoldable pub parent_of : List CourseRuleExpression → Uuid → Option Uuid
parent_of [] id = none
parent_of (e ∷ es) id = if e.id == id then e.parent_id else parent_of es id

abbrev has_id : List CourseRuleExpression → Uuid → Bool
has_id es id = any_by (λ (e : CourseRuleExpression). e.id == id) es

pub record IsRow (es : List CourseRuleExpression) (e : CourseRuleExpression) : Type 0 where
  pub parent : parent_of es e.id ≡ e.parent_id
  pub present : has_id es e.id ≡ true

other-IsRow :
    (x : CourseRuleExpression) (es : List CourseRuleExpression) (e : CourseRuleExpression)
    → (e.id == x.id) ≡ false
    → IsRow es e
    → IsRow (x ∷ es) e
unfolding parent_of
other-IsRow x es e h r = record {
  parent = ground (arith, r.parent);
  present = ground (arith, r.present);
}

all_differ :
    (id : Uuid) (es : List CourseRuleExpression)
    → has_id es id ≡ false
    → All (λ (e : CourseRuleExpression). (e.id == id) ≡ false) es
all_differ id [] h = tt
all_differ id (e ∷ es) h = (ground arith, all_differ id es (ground arith))

pub rows-IsRow : (es : List CourseRuleExpression) → HasDistinctIds es → All (IsRow es) es
rows-IsRow [] h = tt
rows-IsRow (e ∷ es) h = (
  record { parent = unfold parent_of in ground arith; present = ground arith },
  All-map₂ {P = λ (x : CourseRuleExpression). (x.id == e.id) ≡ false} {Q = IsRow es}
      (λ x differs r. other-IsRow e es x differs r) es (all_differ e.id es h.0) (rows-IsRow es h.1),
)

module _ (es : List CourseRuleExpression) where
  -- A node, its parent, and so on up to a root.
  abbrev pub IsChain : CourseRuleExpression → List CourseRuleExpression → Type 0
  IsChain e [] = IsRow es e × (e.parent_id ≡ none)
  IsChain e (p ∷ rest) = IsRow es e × (e.parent_id ≡ some p.id) × IsChain p rest

  chain-IsRow :
      (e : CourseRuleExpression) (rest : List CourseRuleExpression) → IsChain e rest → IsRow es e
  chain-IsRow e [] h = h.0
  chain-IsRow e (p ∷ rest) h = h.0

  same_parent :
      (x y : CourseRuleExpression)
      → IsRow es x
      → IsRow es y
      → x.id ≡ y.id
      → x.parent_id ≡ y.parent_id
  same_parent x y r s e = sym r.parent ∙ ap (parent_of es) e ∙ s.parent

  -- The way up from a node is as long wherever it begins.
  same_length :
      (x : CourseRuleExpression) (xs : List CourseRuleExpression) (y : CourseRuleExpression)
      (ys : List CourseRuleExpression)
      → IsChain x xs
      → IsChain y ys
      → x.id ≡ y.id
      → length xs ≡ length ys
  same_length x [] y [] h k e = refl
  same_length x [] y (q ∷ ys) h k e =
      let parents = same_parent x y h.0 k.0 e in ground (arith, h.1, k.1)
  same_length x (p ∷ xs) y [] h k e =
      let parents = same_parent x y h.0 k.0 e in ground (arith, h.1, k.1)
  same_length x (p ∷ xs) y (q ∷ ys) h k e =
      let parents = same_parent x y h.0 k.0 e in
      ap suc (same_length p xs q ys h.2 k.2 (ground (arith, h.1, k.1)))

  differs :
      (c : CourseRuleExpression) (rest : List CourseRuleExpression) (x : CourseRuleExpression)
      (xs : List CourseRuleExpression)
      → IsChain c rest
      → IsChain x xs
      → length xs < length rest
      → (x.id == c.id) ≡ false
  differs c rest x xs h k l = elim (Bool-cases (x.id == c.id)) [
    | inl e ↦
        let same = same_length x xs c rest k h ((==_iff x.id c.id).0 e) in absurd (omega arith)
    | inr e ↦ e
  ]

  not_above :
      (c : CourseRuleExpression) (rest : List CourseRuleExpression) (x : CourseRuleExpression)
      (xs : List CourseRuleExpression)
      → IsChain c rest
      → IsChain x xs
      → length xs < length rest
      → has_id (x ∷ xs) c.id ≡ false
  not_above c rest x [] h k l = ground (arith, differs c rest x [] h k l)
  not_above c rest x (p ∷ xs) h k l =
      ground (arith, differs c rest x (p ∷ xs) h k l, not_above c rest p xs h k.2 (omega arith))

  -- A node is not among those above it.
  pub chain-IsNew :
      (c : CourseRuleExpression) (rest : List CourseRuleExpression)
      → IsChain c rest
      → has_id rest c.id ≡ false
  chain-IsNew c [] h = refl
  chain-IsNew c (p ∷ rest) h = not_above c (p ∷ rest) p rest h h.2 (omega arith)

-- How many rows are not on a way.
abbrev pub unvisited : List CourseRuleExpression → List CourseRuleExpression → ℕ
unvisited path es = count_by (λ (e : CourseRuleExpression). not (has_id path e.id)) es

unvisited_le :
    (c : CourseRuleExpression) (path es : List CourseRuleExpression)
    → unvisited (c ∷ path) es ≤ unvisited path es
unvisited_le c path [] = omega arith
unvisited_le c path (e ∷ es) = let rest = unvisited_le c path es in ground arith

pub unvisited_less :
    (c : CourseRuleExpression) (path es : List CourseRuleExpression)
    → has_id es c.id ≡ true
    → has_id path c.id ≡ false
    → unvisited (c ∷ path) es < unvisited path es
unvisited_less c path [] h k = cc
unvisited_less c path (e ∷ es) h k = elim (Bool-cases (e.id == c.id)) [
  | inl same ↦
      let new : has_id path e.id ≡ false =
        subst (λ id. has_id path id ≡ false) (sym ((==_iff e.id c.id).0 same)) k in
      let rest = unvisited_le c path es in ground arith
  | inr other ↦ let rest = unvisited_less c path es (ground arith) k in ground arith
]

pub unvisited_nil : (es : List CourseRuleExpression) → unvisited [] es ≡ length es
unvisited_nil [] = refl
unvisited_nil (e ∷ es) = let rest = unvisited_nil es in omega arith

module _ (es : List CourseRuleExpression) where
  -- A child under its parent: it is a row, and has the parent.
  abbrev pub IsChildOf : Uuid → CourseRuleExpression → Type 0
  IsChildOf id e = IsRow es e × (e.parent_id ≡ some id)

  pub under : (e : CourseRuleExpression) → IsRow es e → AtKey IsChildOf e.parent_id e
  under e r = go e.parent_id refl
    where
      go : (p : Option Uuid) → e.parent_id ≡ p → AtKey IsChildOf p e
      go none h = tt
      go (some id) h = (r, h)

module _ (db : EligibilityTables) (policy : GradePolicy) (rule_type : CourseRuleType)
    (context : EligibilityRequestContext) (es : List CourseRuleExpression) where
  children-IsChildOf :
      (id : Uuid) → All (IsRow es) es → All (IsChildOf es id) (get_list id (children_by_parent es))
  unfolding children_by_parent
  children-IsChildOf id rows = All-get_list_key (IsChildOf es) id _ (
      group_by-Holds (IsChildOf es) (λ e. e.parent_id) expression_leb es
        (All-map (under es) es rows))

  -- A depth above the number of rows that are not on the way to the node is enough.
  pub evaluate_expression_tree-IsOk :
      (depth : ℕ) (e : CourseRuleExpression) (rest : List CourseRuleExpression)
      → All (IsRow es) es
      → IsChain es e rest
      → unvisited (e ∷ rest) es < depth
      → IsOk (evaluate_expression_tree db policy depth rule_type context (children_by_parent es) e)
  unfolding evaluate_expression_tree
  evaluate_expression_tree-IsOk zero e rest rows h l = absurd (omega arith)
  evaluate_expression_tree-IsOk (suc depth) e rest rows h l =
      bind-IsOk _ _
        (each-IsOk _ _ (
          All-map
            (λ child c.
              let chain : IsChain es child (e ∷ rest) = (c.0, c.1, h) in
              let less =
                unvisited_less child (e ∷ rest) es c.0.present
                  (chain-IsNew es child (e ∷ rest) chain) in
              evaluate_expression_tree-IsOk depth child (e ∷ rest) rows chain (omega arith))
            (get_list e.id (children_by_parent es)) (children-IsChildOf e.id rows)))
        (λ trees. tt)

  -- From a root, a depth of the number of rows is enough.
  pub root-IsOk :
      (depth : ℕ) (root : CourseRuleExpression)
      → All (IsRow es) es
      → IsRow es root
      → root.parent_id ≡ none
      → length es ≤ depth
      → IsOk
          (evaluate_expression_tree db policy depth rule_type context (children_by_parent es) root)
  root-IsOk depth root rows r h l =
      let less = unvisited_less root [] es r.present refl in
      let all = unvisited_nil es in
      evaluate_expression_tree-IsOk depth root [] rows (r, h) (omega arith)
