-- ===== src/Scenarios/Search.antt =====
-- allocator.py: `_choices_by_source`, and the bounded search `visit` of `allocate`.
pub mod Linear
pub mod Bounded
pub mod Best
use smart_academic_planning.Prelude.{
  ℕ, suc, ◌+◌, Bool, true, false, ◌&&◌, ◌||◌, not, List, [], ◌∷◌, ◌++◌, Text, ltb, leb, ◌==◌,
  if◌then◌else◌, filter_by, map, flat_map_by, sorted,
}
use smart_academic_planning.DegreeAudit.Result.{
  SourceKey, SourceKind, attempt, transfer, waiver, substitution,
}
use smart_academic_planning.Scenarios.Candidates.{
  AllocationCandidate, ProgramCombinationPolicy, Selection, sort_allocations, stable_candidate_key,
  texts_leb,
}
use smart_academic_planning.Scenarios.Policies.{
  of_source, sources_of, is_shareable, is_valid_selection,
}
use smart_academic_planning.Scenarios.Objective.{
  AllocationObjective, objective_for, score_leb, no_objective,
}

-- The order of the kinds' texts: "attempt", "substitution", "transfer", "waiver".
abbrev pub kind_rank : SourceKind → ℕ
kind_rank attempt = 0
kind_rank substitution = 1
kind_rank transfer = 2
kind_rank waiver = 3

abbrev pub source_leb : SourceKey → SourceKey → Bool
source_leb (k, i) (l, j) =
    ltb (kind_rank k) (kind_rank l) || (kind_rank k == kind_rank l && leb i j)

-- `combinations(candidates, 2)`
unfoldable pub pairs : Selection → List Selection
pairs [] = []
pairs (c ∷ cs) = map (λ d. c ∷ d ∷ []) cs ++ pairs cs

abbrev pub tie_of : Selection → List Text
tie_of cs = map stable_candidate_key cs

-- The choices for one source: none of its candidates, each of them, and each pair to share it.
unfoldable pub choices_for : List ProgramCombinationPolicy → Selection → List Selection
choices_for policies cs =
    sorted (λ x y. texts_leb (tie_of x) (tie_of y))
      ([]
        ∷ (map (λ c. c ∷ []) (sort_allocations cs)
            ++ filter_by (is_shareable policies) (pairs (sort_allocations cs))))

unfoldable pub choices_by_source : List ProgramCombinationPolicy → Selection → List (List Selection)
choices_by_source policies cs =
    map (λ key. choices_for policies (of_source key cs)) (sorted source_leb (sources_of cs))

-- The variables that `visit` shares with `allocate`.
pub record Search : Type 0 where
  pub best_selection : Selection
  pub best_objective : AllocationObjective
  pub best_tie : List Text
  pub evaluated : ℕ
  pub limit_reached : Bool

abbrev pub search_start : Search
search_start = record {
  best_selection = [];
  best_objective = no_objective;
  best_tie = [];
  evaluated = 0;
  limit_reached = false;
}

-- `limit_reached = True`
abbrev pub stop : Search → Search
stop s = record s { limit_reached = true }

-- A greater score, or the same score with a smaller tie.
unfoldable pub improves : Search → AllocationObjective → List Text → Bool
improves s objective tie =
    not (score_leb objective s.best_objective)
    || (score_leb s.best_objective objective && not (texts_leb s.best_tie tie))

module _ (policies : List ProgramCombinationPolicy) where
  abbrev pub adopt : Selection → Search → Search
  adopt selected s = record s {
    best_selection = selected;
    best_objective = objective_for policies selected;
    best_tie = tie_of selected;
  }

  abbrev pub count_one : Search → Search
  count_one s = record s { evaluated = suc s.evaluated }

  -- A complete selection is evaluated.
  unfoldable pub consider : Selection → Search → Search
  consider selected s =
      if is_valid_selection policies selected
        && improves s (objective_for policies selected) (tie_of selected)
      then adopt selected (count_one s)
      else count_one s

  module _ (search_limit : ℕ) where
    -- The loop over the choices of a source, over the call that it makes for each.
    unfoldable pub try_choices :
        (Selection → Search → Search) → Selection → List Selection → Search → Search
    try_choices visit_next selected [] s = s
    try_choices visit_next selected (c ∷ cs) s = elim (leb search_limit s.evaluated) [
      | true ↦ stop s
      | false ↦ try_choices visit_next selected cs (visit_next (selected ++ c) s)
    ]

    -- `visit(source_index, selected)`, over the choices of the sources from the index on.
    unfoldable pub visit : List (List Selection) → Selection → Search → Search
    visit [] selected s = elim (leb search_limit s.evaluated) [
      | true ↦ stop s
      | false ↦ consider selected s
    ]
    visit (choices ∷ rest) selected s = elim (leb search_limit s.evaluated) [
      | true ↦ stop s
      | false ↦ try_choices (λ chosen t. visit rest chosen t) selected choices s
    ]
