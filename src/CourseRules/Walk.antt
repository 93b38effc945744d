-- ===== src/CourseRules/Walk.antt =====
-- course_rules.py: `visit`, from the root of nodes whose ids are unique.
use smart_academic_planning.Prelude.{
  ℕ, zero, suc, ◌<◌, Bool, true, false, not, ◌||◌, List, [], ◌∷◌, get_list, ◌==◌, if◌then◌else◌,
  filter_by, any_by, map, All, All-map, All-get_list_key, ◌≡◌, refl, ap, ◌∙◌, arith,
}
use smart_academic_planning.DegreeAudit.Records.{Uuid}
use smart_academic_planning.Eligibility.Records.{CourseRuleExpression}
use smart_academic_planning.Eligibility.Tree.Depth.{
  IsRow, IsChain, IsChildOf, chain-IsNew, unvisited, unvisited_less, under,
}
use smart_academic_planning.DegreeAudit.Index.Rows.{group_from-Holds}
use smart_academic_planning.CourseRules.{
  Visits, VisitOutcome, at, failed, then_visit, has, enter, leave, visit_children, visit,
  children_of, node_id, contains_cycles,
}

-- The call ends with the nodes being visited as they were.
abbrev pub IsBack : List Uuid → VisitOutcome → Type 0
IsBack path (at v) = v.visiting ≡ path
IsBack path (failed e) = ⊥

then-IsBack :
    (path more : List Uuid) (o : VisitOutcome) (f : Visits → VisitOutcome)
    → IsBack path o
    → ((v : Visits) → v.visiting ≡ path → IsBack more (f v))
    → IsBack more (then_visit o f)
then-IsBack path more (at v) f h k = k v h
then-IsBack path more (failed e) f h k = absurd h

children-IsBack :
    (visit_child : Uuid → Visits → VisitOutcome) (path : List Uuid) (cs : List CourseRuleExpression)
    → All
        (λ (c : CourseRuleExpression).
          (v : Visits) → v.visiting ≡ path → IsBack path (visit_child c.id v))
        cs
    → (v : Visits) → v.visiting ≡ path
    → IsBack path (visit_children visit_child cs v)
unfolding visit_children
children-IsBack visit_child path [] h v e = e
children-IsBack visit_child path (c ∷ cs) h v e =
    then-IsBack path path (visit_child c.id v) _ (h.0 v e) (children-IsBack visit_child path cs h.1)

has-map :
    (id : Uuid) (path : List CourseRuleExpression)
    → has id (map node_id path) ≡ any_by (λ (e : CourseRuleExpression). e.id == id) path
has-map id [] = refl
has-map id (p ∷ path) = ap (λ b. (p.id == id) || b) (has-map id path)

removed :
    (id : Uuid) (ids : List Uuid) → has id ids ≡ false → filter_by (λ i. not (i == id)) ids ≡ ids
removed id [] h = refl
removed id (i ∷ ids) h = ground (arith, removed id ids)

module _ (es : List CourseRuleExpression) where
  children-Hold :
      (id : Uuid) → All (IsRow es) es → All (IsChildOf es id) (get_list id (children_of es))
  unfolding children_of
  children-Hold id rows =
      All-get_list_key (IsChildOf es) id _
        (group_from-Holds (IsChildOf es) (λ e. e.parent_id) [] es tt (All-map (under es) es rows))

  visit_goes :
      (depth : ℕ) (id : Uuid) (path : List Uuid) (v : Visits)
      → has id path ≡ false
      → v.visiting ≡ path
      → ((w : Visits)
          → w.visiting ≡ id ∷ path
          → IsBack
              (id ∷ path)
              (visit_children (visit depth (children_of es)) (get_list id (children_of es)) w))
      → IsBack path (visit (suc depth) (children_of es) id v)
  unfolding visit
  visit_goes depth id path v new e inner =
      go (has id v.visiting) (has id v.visited) (ap (has id) e ∙ new)
    where
      go :
          (busy seen : Bool)
          → busy ≡ false
          → IsBack path (
              if busy
              then failed contains_cycles
              else if seen
              then at v
              else then_visit
                  (visit_children
                    (visit depth (children_of es))
                    (get_list id (children_of es))
                    (enter id v))
                  (λ w. at (leave id w)))
      go true seen h = cc
      go false true h = e
      go false false h =
          then-IsBack (id ∷ path) path _ _ (inner (enter id v) (ap (λ l. id ∷ l) e)) λ w f.
            ap (λ l. filter_by (λ i. not (i == id)) l) f ∙ ground (arith, removed id path new)

  -- A depth above the number of rows that are not on the way to the node is enough, and no node is
  -- visited while it is being visited.
  pub visit-IsBack :
      (depth : ℕ) (e : CourseRuleExpression) (rest : List CourseRuleExpression)
      → All (IsRow es) es
      → IsChain es e rest
      → unvisited (e ∷ rest) es < depth
      → (v : Visits) → v.visiting ≡ map node_id rest
      → IsBack (map node_id rest) (visit depth (children_of es) e.id v)
  visit-IsBack zero e rest rows h l v same = absurd (omega arith)
  visit-IsBack (suc depth) e rest rows h l v same =
      visit_goes depth e.id (map node_id rest) v (has-map e.id rest ∙ chain-IsNew es e rest h) same
        (children-IsBack (visit depth (children_of es)) (e.id ∷ map node_id rest)
          (get_list e.id (children_of es))
          (All-map
            (λ child c.
              let chain : IsChain es child (e ∷ rest) = (c.0, c.1, h) in
              let less =
                unvisited_less child (e ∷ rest) es c.0.present
                  (chain-IsNew es child (e ∷ rest) chain) in
              visit-IsBack depth child (e ∷ rest) rows chain (omega arith))
            (get_list e.id (children_of es)) (children-Hold e.id rows)))
