-- ===== src/Scenarios/Allocate/Optimal.antt =====
-- allocator.py: the selection that the search of `allocate` ends with.
use smart_academic_planning.Prelude.{
  ℕ, ◌≤◌, ◌<◌, min, Bool, true, false, ◌&&◌, List, [], ◌∷◌, ◌++◌, map, ltb, length, sorted,
  insert_sorted, if◌then◌else◌, IsNonEmpty, ◌≡◌, refl, ap, sym, subst, ◌∙◌, ◌⊎◌, arith, All-Mem,
  Text,
}
use mathlib.Core.List.{Mem}
use smart_academic_planning.DegreeAudit.Result.{SourceKey}
use smart_academic_planning.DegreeAudit.Keys.{key_leb}
use smart_academic_planning.Scenarios.Candidates.{ProgramCombinationPolicy, Selection, texts_leb}
use smart_academic_planning.Scenarios.Policies.{
  of_source, sources_of, sources_from, is_valid_selection, distinct_requirements, sources_shareable,
  shares_within_limits, shares,
}
use smart_academic_planning.Scenarios.Objective.{
  AllocationObjective, sources_used_more_than_once, objective_for, score_leb,
}
use smart_academic_planning.Scenarios.Search.{
  Search, search_start, tie_of, choices_for, choices_by_source, improves, source_leb,
}
use smart_academic_planning.Scenarios.Search.Linear.{selections, scan, visit-eq-scan, HasChoices}
use smart_academic_planning.Scenarios.Search.Bounded.{scan_counts}
use smart_academic_planning.Scenarios.Search.Best.{IsSound, scan-IsSound, scan-IsNoBetter}
use smart_academic_planning.Scenarios.Allocate.{search}

insert-IsNonEmpty {ℓ} :
    {A : Type ℓ} (le : A → A → Bool) (x : A) (ys : List A) → IsNonEmpty (insert_sorted le x ys)
unfolding insert_sorted
insert-IsNonEmpty le x [] = tt
insert-IsNonEmpty le x (y ∷ ys) = go (le x y)
  where
    go : (b : Bool) → IsNonEmpty (if b then x ∷ y ∷ ys else y ∷ insert_sorted le x ys)
    go true = tt
    go false = tt

sorted-IsNonEmpty {ℓ} :
    {A : Type ℓ} (le : A → A → Bool) (xs : List A) → IsNonEmpty xs → IsNonEmpty (sorted le xs)
unfolding sorted
sorted-IsNonEmpty le [] h = absurd h
sorted-IsNonEmpty le (x ∷ xs) h = insert-IsNonEmpty le x (sorted le xs)

choices_for-IsNonEmpty :
    (policies : List ProgramCombinationPolicy) (cs : Selection)
    → IsNonEmpty (choices_for policies cs)
unfolding choices_for
choices_for-IsNonEmpty policies cs = sorted-IsNonEmpty (λ x y. texts_leb (tie_of x) (tie_of y)) _ tt

choices-HasChoices :
    (policies : List ProgramCombinationPolicy) (cs : Selection)
    → HasChoices (choices_by_source policies cs)
unfolding choices_by_source
choices-HasChoices policies cs = go (sorted source_leb (sources_of cs))
  where
    go :
        (keys : List SourceKey)
        → HasChoices (map (λ key. choices_for policies (of_source key cs)) keys)
    go [] = tt
    go (k ∷ ks) = (choices_for-IsNonEmpty policies (of_source k cs), go ks)

-- Every combination of choices for the sources, which is what the search is made over.
unfoldable pub combinations : List ProgramCombinationPolicy → Selection → List Selection
combinations policies ordered = selections (choices_by_source policies ordered)

map_nil_append : (xs : List Selection) → map (λ r. [] ++ r) xs ≡ xs
map_nil_append [] = refl
map_nil_append (x ∷ xs) = ap (λ l. x ∷ l) (map_nil_append xs)

-- Fewer requirements, or as many and no more unique secondary credits.
abbrev pub FallsShort : AllocationObjective → AllocationObjective → Type 0
FallsShort x y =
    (x.satisfied_required_requirements < y.satisfied_required_requirements)
    ⊎ ((x.satisfied_required_requirements ≡ y.satisfied_required_requirements)
        × (x.unique_secondary_credits ≤ y.unique_secondary_credits))

score_leb-FallsShort : (x y : AllocationObjective) → score_leb x y ≡ true → FallsShort x y
unfolding score_leb key_leb
score_leb-FallsShort x y h = ground arith

improves_not :
    (s : Search) (o : AllocationObjective) (t : List Text)
    → improves s o t ≡ false
    → score_leb o s.best_objective ≡ true
unfolding improves
improves_not s o t h = ground arith

-- The selection x has no greater score than the selection y, and where the scores are the same no
-- smaller a tie.
abbrev pub IsNoBetterThan : List ProgramCombinationPolicy → Selection → Selection → Type 0
IsNoBetterThan policies y x =
    (score_leb (objective_for policies x) (objective_for policies y) ≡ true)
    × (score_leb (objective_for policies y) (objective_for policies x) ≡ true
        → texts_leb (tie_of y) (tie_of x) ≡ true)

improves_not-IsNoBetter :
    (policies : List ProgramCombinationPolicy) (x : Selection) (s : Search)
    → s.best_objective ≡ objective_for policies s.best_selection
    → s.best_tie ≡ tie_of s.best_selection
    → improves s (objective_for policies x) (tie_of x) ≡ false
    → IsNoBetterThan policies s.best_selection x
unfolding improves
improves_not-IsNoBetter policies x s e e' h =
    (rw (sym e) (ground arith), rw (sym e, sym e') (λ le. ground arith))

module _ (policies : List ProgramCombinationPolicy) (search_limit : ℕ) (ordered : Selection) where
  -- The search is one loop over the combinations, which stops at the limit.
  pub search-eq-scan :
      search policies search_limit ordered
      ≡ scan policies search_limit (combinations policies ordered) search_start
  unfolding search combinations
  search-eq-scan =
      visit-eq-scan policies search_limit (choices_by_source policies ordered) [] search_start
        (choices-HasChoices policies ordered)
      ∙ ap (λ l. scan policies search_limit l search_start)
          (map_nil_append (selections (choices_by_source policies ordered)))

  start-IsSound : IsSound policies search_start
  unfolding is_valid_selection distinct_requirements sources_shareable shares_within_limits shares
      sources_of sources_from objective_for sources_used_more_than_once
  start-IsSound = record { valid = refl; objective = refl; tie = refl }

  -- The search evaluates as many combinations as there are, up to the limit, and raises the flag
  -- exactly if there are more.
  pub search_counts :
      ((search policies search_limit ordered).evaluated
        ≡ min (length (combinations policies ordered)) search_limit)
      × ((search policies search_limit ordered).limit_reached
          ≡ ltb search_limit (length (combinations policies ordered)))
  search_counts =
      let counts =
        scan_counts policies search_limit (combinations policies ordered) search_start
          (omega arith) in
      rw search-eq-scan (omega arith, ground arith)

  -- Whatever the limit, the selection that is kept is valid, the objective is that of the selection,
  -- and the selection is empty or one of the combinations.
  pub search-IsSound :
      (is_valid_selection policies (search policies search_limit ordered).best_selection ≡ true)
      × ((search policies search_limit ordered).best_objective
          ≡ objective_for policies (search policies search_limit ordered).best_selection)
      × (((search policies search_limit ordered).best_selection ≡ [])
          ⊎ Mem
              (search policies search_limit ordered).best_selection
              (combinations policies ordered))
  search-IsSound =
      let sound =
        scan-IsSound policies search_limit (combinations policies ordered) search_start
          start-IsSound in
      rw search-eq-scan (sound.0.valid, sound.0.objective, sound.1)

  search_keeps :
      (x : Selection)
      → (search policies search_limit ordered).limit_reached ≡ false
      → Mem x (combinations policies ordered)
      → is_valid_selection policies x ≡ true
      → improves (search policies search_limit ordered) (objective_for policies x) (tie_of x)
        ≡ false
  search_keeps x open_end m valid =
      let few : length (combinations policies ordered) ≤ search_limit =
        ground (arith, search_counts) in
      let best =
        scan-IsNoBetter policies search_limit (combinations policies ordered) search_start
          (omega arith) in
      let here =
        All-Mem
          (λ y.
            is_valid_selection policies y
            && improves (scan policies search_limit (combinations policies ordered) search_start)
                (objective_for policies y) (tie_of y))
          false x (combinations policies ordered) best.0 m in
      rw search-eq-scan (ground arith)

  search-tie :
      (search policies search_limit ordered).best_tie
      ≡ tie_of (search policies search_limit ordered).best_selection
  search-tie =
      let sound =
        scan-IsSound policies search_limit (combinations policies ordered) search_start
          start-IsSound in
      rw search-eq-scan sound.0.tie

  -- Where the limit is not reached, the kept selection is the best of all: a combination that is
  -- valid has no greater score than the kept selection, and where it has the same score, the tie of
  -- the kept selection is no greater than its tie.
  pub search-IsNoBetter :
      (x : Selection)
      → (search policies search_limit ordered).limit_reached ≡ false
      → Mem x (combinations policies ordered)
      → is_valid_selection policies x ≡ true
      → IsNoBetterThan policies (search policies search_limit ordered).best_selection x
  search-IsNoBetter x open_end m valid =
      improves_not-IsNoBetter policies x (search policies search_limit ordered) search-IsSound.1
        search-tie (search_keeps x open_end m valid)

  -- Where the limit is not reached, no combination that is valid meets more requirements than the
  -- kept selection, or as many with more unique secondary credits.
  pub search_maximal :
      (x : Selection)
      → (search policies search_limit ordered).limit_reached ≡ false
      → Mem x (combinations policies ordered)
      → is_valid_selection policies x ≡ true
      → FallsShort
          (objective_for policies x)
          (objective_for policies (search policies search_limit ordered).best_selection)
  search_maximal x open_end m valid =
      let no_better = search_keeps x open_end m valid in
      subst (FallsShort (objective_for policies x)) search-IsSound.1 (
        score_leb-FallsShort _ _
          (improves_not (search policies search_limit ordered) _ (tie_of x) no_better))
