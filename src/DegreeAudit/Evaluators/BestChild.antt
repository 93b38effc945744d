-- ===== src/DegreeAudit/Evaluators/BestChild.antt =====
-- engine.py: `AnyOfEvaluator` and the child that it takes its figures from.
use mathlib.Core.Option
use smart_academic_planning.Prelude.{
  ◌-◌, get_or_zero, ◌≤◌, true, false, List, [], ◌∷◌, map, ◌≡◌, refl, Bool-cases, inl, inr, All,
  IsSorted, sorted, sorted-IsSorted, sorted-All, sorted-All_inv, arith,
}
use smart_academic_planning.DegreeAudit.Keys.{id_leb, id_leb-total, id_leb_trans}
use smart_academic_planning.DegreeAudit.Records.{RequirementNode}
use smart_academic_planning.DegreeAudit.Quantize.{quantize_credits}
use smart_academic_planning.DegreeAudit.Result.{RequirementResult}
use smart_academic_planning.DegreeAudit.Status.{
  Status, status_rank, status_eq, occurs, shows_progress,
}
use smart_academic_planning.DegreeAudit.Status.Children.{any_of_status-lowest, collapse}
use smart_academic_planning.DegreeAudit.Evaluators.Base.{result}
use smart_academic_planning.DegreeAudit.Evaluators.Parents.{
  child_leb, first_or, best_child, any_of_result,
}

-- The result r has the figures of the best child b.
pub record HasFigures (b r : RequirementResult) : Type 0 where
  pub required_credits : r.required_credits ≡ Option.map quantize_credits b.required_credits
  pub satisfied_credits : r.satisfied_credits ≡ quantize_credits b.satisfied_credits
  pub remaining_credits :
      r.remaining_credits ≡ quantize_credits (get_or_zero b.required_credits - b.satisfied_credits)
  pub required_courses : r.required_courses ≡ b.required_courses
  pub satisfied_courses : r.satisfied_courses ≡ b.satisfied_courses
  pub remaining_courses : r.remaining_courses ≡ get_or_zero b.required_courses - b.satisfied_courses

child_leb-total : (x y : RequirementResult) → child_leb x y ≡ false → child_leb y x ≡ true
unfolding child_leb
child_leb-total x y = id_leb-total _ _

child_leb_trans :
    (x y z : RequirementResult) → child_leb x y ≡ true → child_leb y z ≡ true → child_leb x z ≡ true
unfolding child_leb
child_leb_trans x y z = id_leb_trans _ _ _

child_leb_refl : (x : RequirementResult) → child_leb x x ≡ true
child_leb_refl x = elim (Bool-cases (child_leb x x)) [ inl e ↦ e | inr e ↦ child_leb-total x x e ]

-- What holds of the elements of a list that is not empty holds of its first one.
first-All :
    (P : RequirementResult → Type 0) (r : RequirementResult) (xs : List RequirementResult)
    → P r
    → All P xs
    → P (first_or r xs)
unfolding first_or
first-All P r [] h k = h
first-All P r (x ∷ xs) h k = k.0

first-least :
    (r : RequirementResult) (xs : List RequirementResult)
    → IsSorted child_leb xs
    → All (λ y. child_leb (first_or r xs) y ≡ true) xs
unfolding first_or
first-least r [] h = tt
first-least r (x ∷ xs) h = (child_leb_refl x, h.0)

-- The best child comes first, by rank and then by display order, among all children.
pub best_child-least :
    (r : RequirementResult) (rs : List RequirementResult)
    → All (λ y. child_leb (best_child r rs) y ≡ true) (r ∷ rs)
unfolding best_child
best_child-least r rs =
    sorted-All_inv child_leb (λ y. child_leb (first_or r (sorted child_leb (r ∷ rs))) y ≡ true)
      (r ∷ rs)
      (first-least r (sorted child_leb (r ∷ rs))
        (sorted-IsSorted child_leb child_leb-total child_leb_trans (r ∷ rs)))

occurs-All :
    (all xs : List RequirementResult)
    → ((s : Status)
        → occurs s (map (λ c. c.status) xs) ≡ true
        → occurs s (map (λ c. c.status) all) ≡ true)
    → All (λ x. occurs x.status (map (λ c. c.status) all) ≡ true) xs
unfolding occurs status_eq
occurs-All all [] h = tt
occurs-All all (x ∷ xs) h =
    (h x.status (ground arith), occurs-All all xs (λ s e. h s (ground arith)))

best_child-occurs :
    (r : RequirementResult) (rs : List RequirementResult)
    → occurs (best_child r rs).status (map (λ c. c.status) (r ∷ rs)) ≡ true
unfolding best_child
best_child-occurs r rs =
    let every = occurs-All (r ∷ rs) (r ∷ rs) (λ s e. e) in
    first-All (λ x. occurs x.status (map (λ c. c.status) (r ∷ rs)) ≡ true) r
      (sorted child_leb (r ∷ rs)) every.0
      (sorted-All child_leb (λ x. occurs x.status (map (λ c. c.status) (r ∷ rs)) ≡ true) (r ∷ rs)
        every)

rank_of_least :
    (b : RequirementResult) (xs : List RequirementResult)
    → All (λ y. child_leb b y ≡ true) xs
    → All (λ s. status_rank b.status ≤ status_rank s) (map (λ c. c.status) xs)
unfolding child_leb id_leb
rank_of_least b [] h = tt
rank_of_least b (x ∷ xs) h = (ground arith, rank_of_least b xs h.1)

-- If the best child shows progress, the alternative has the status of that child, a waiver counting
-- as satisfied, its credits rounded to tenths, its numbers of courses, and what they leave to do; and
-- no child comes before it by rank and display order.
pub any_of_result-best :
    (node : RequirementNode) (r : RequirementResult) (rs : List RequirementResult)
    → shows_progress (best_child r rs).status ≡ true
    → ((any_of_result node (r ∷ rs)).status ≡ collapse (best_child r rs).status)
      × HasFigures (best_child r rs) (any_of_result node (r ∷ rs))
      × All (λ y. child_leb (best_child r rs) y ≡ true) (r ∷ rs)
unfolding any_of_result result
any_of_result-best node r rs shown = (
  any_of_status-lowest (map (λ c. c.status) (r ∷ rs)) (best_child r rs).status
      (best_child-occurs r rs) (rank_of_least (best_child r rs) (r ∷ rs) (best_child-least r rs))
      shown,
  record {
    required_credits = refl;
    satisfied_credits = refl;
    remaining_credits = refl;
    required_courses = refl;
    satisfied_courses = refl;
    remaining_courses = refl;
  },
  best_child-least r rs,
)
