-- ===== src/DegreeAudit/Tests/Selection.antt =====
-- The theorems on the selection and the reservation of candidates, applied to concrete candidates.
use smart_academic_planning.Prelude.{
  true, false, not, ◌&&◌, some, [], ◌∷◌, take, map, sorted, All, ◌≡◌, refl,
}
use smart_academic_planning.DegreeAudit.Keys.{id_leb}
use smart_academic_planning.DegreeAudit.Records.{waived, in_progress}
use smart_academic_planning.DegreeAudit.Records.{RequirementNode}
use smart_academic_planning.DegreeAudit.Result.{SourceKind, source_eq}
use smart_academic_planning.DegreeAudit.Frames.{Ends}
use smart_academic_planning.DegreeAudit.Allocator.{is_used, is_available, reserve}
use smart_academic_planning.DegreeAudit.Allocator.Exclusive.{is_available-reserve}
use smart_academic_planning.DegreeAudit.Context.{no_credits, sum_credits}
use smart_academic_planning.DegreeAudit.Status.{shows_progress, status_rank}
use smart_academic_planning.DegreeAudit.Status.Children.{collapse}
use smart_academic_planning.DegreeAudit.Evaluators.{
  first_available_candidate, select_distinct, select_distinct_candidates, choose, apply_all,
  child_leb, best_child, first_or, any_of_result,
}
use smart_academic_planning.DegreeAudit.Evaluators.Distinct.{
  DistinctCourses, IsFree, HasBest, select_distinct_candidates-distinct,
  select_distinct_candidates-best, choose-eq-take,
}
use smart_academic_planning.DegreeAudit.Evaluators.Available.{
  IsFirst, first_available_candidate-IsFirst,
}
use smart_academic_planning.DegreeAudit.Evaluators.Once.{totals_of, sum_credits-select_distinct}
use smart_academic_planning.DegreeAudit.Evaluators.Twice.{
  MarksReserved, choose_counts_twice, apply_all-overlap,
}
use smart_academic_planning.DegreeAudit.Evaluators.BestChild.{HasFigures, any_of_result-best}
use smart_academic_planning.DegreeAudit.Tests.Samples.{
  empty_state, candidate, candidates-Are, choice_node, root_node, child,
}

first_available_candidate-IsFirst_example :
    IsFirst [] false (candidate 21 (some 1) false ∷ candidate 20 (some 1) true ∷ []) (
      first_available_candidate [] false
        (candidate 21 (some 1) false ∷ candidate 20 (some 1) true ∷ []))
first_available_candidate-IsFirst_example =
    first_available_candidate-IsFirst [] false
      (candidate 21 (some 1) false ∷ candidate 20 (some 1) true ∷ [])

choose-eq-take_example :
    choose 1 [] false [] (candidate 20 (some 1) true ∷ candidate 21 (some 1) false ∷ [])
    ≡ take 1 (
        select_distinct [] false [] (candidate 20 (some 1) true ∷ candidate 21 (some 1) false ∷ []))
choose-eq-take_example =
    choose-eq-take [] false 1 [] (candidate 20 (some 1) true ∷ candidate 21 (some 1) false ∷ [])

select_distinct_candidates-distinct_example :
    DistinctCourses (
      select_distinct_candidates [] false
        (candidate 21 (some 1) false ∷ candidate 20 (some 1) true ∷ []))
    × All (IsFree [] false) (
        select_distinct_candidates [] false
          (candidate 21 (some 1) false ∷ candidate 20 (some 1) true ∷ []))
select_distinct_candidates-distinct_example =
    select_distinct_candidates-distinct [] false
      (candidate 21 (some 1) false ∷ candidate 20 (some 1) true ∷ [])

attempt_21_free : is_available [] (SourceKind.attempt, 21) false ≡ true
unfolding is_available is_used
attempt_21_free = refl

select_distinct_candidates-best_example : HasBest 1 (candidate 21 (some 1) false) (
    select_distinct_candidates [] false
      (candidate 22 (some 2) true ∷ candidate 21 (some 1) false ∷ candidate 20 (some 1) true ∷ []))
select_distinct_candidates-best_example =
    select_distinct_candidates-best [] false (candidate 22 (some 2) true ∷ [])
      (candidate 21 (some 1) false) (candidate 20 (some 1) true ∷ []) 1 attempt_21_free refl

sum_credits-select_distinct_example :
    sum_credits [] no_credits (candidate 20 (some 1) true ∷ candidate 21 (some 1) false ∷ [])
    ≡ totals_of no_credits
        (select_distinct [] true [] (candidate 20 (some 1) true ∷ candidate 21 (some 1) false ∷ []))
sum_credits-select_distinct_example =
    sum_credits-select_distinct [] (candidate 20 (some 1) true ∷ candidate 21 (some 1) false ∷ [])
      candidates-Are

is_available-reserve_example :
    Ends ⊥ (reserve (SourceKind.attempt, 20) false empty_state) (λ shared s'.
      (is_available s'.used_sources (SourceKind.attempt, 20) false ≡ (
        not (source_eq (SourceKind.attempt, 20) (SourceKind.attempt, 20))
        && is_available empty_state.used_sources (SourceKind.attempt, 20) false))
      × (shared ≡ not (is_available empty_state.used_sources (SourceKind.attempt, 20) false)))
is_available-reserve_example =
    is_available-reserve (SourceKind.attempt, 20) (SourceKind.attempt, 20) empty_state

attempt_20_unused : is_used (SourceKind.attempt, 20) [] ≡ false
unfolding is_used
attempt_20_unused = refl

choose_counts_twice_example :
    (choose 2 [] false [] (candidate 20 (some 1) true ∷ candidate 20 (some 2) true ∷ [])
      ≡ candidate 20 (some 1) true ∷ candidate 20 (some 2) true ∷ [])
    × Ends ⊥
        (apply_all choice_node
          (candidate 20 (some 1) true ∷ candidate 20 (some 2) true ∷ [])
          empty_state)
        (λ applications s'. map (λ x. x.is_shared) applications ≡ false ∷ true ∷ [])
choose_counts_twice_example =
    choose_counts_twice choice_node (candidate 20 (some 1) true) (candidate 20 (some 2) true) 1 2
      empty_state refl refl attempt_20_unused refl refl refl

abbrev overlapping_node : RequirementNode
overlapping_node = record choice_node { allows_overlap = true }

apply_all-overlap_example :
    Ends ⊥
      (apply_all overlapping_node
        (candidate 20 (some 1) true ∷ candidate 20 (some 2) true ∷ [])
        empty_state)
      (MarksReserved empty_state (candidate 20 (some 1) true ∷ candidate 20 (some 2) true ∷ []))
apply_all-overlap_example =
    apply_all-overlap overlapping_node
      (candidate 20 (some 1) true ∷ candidate 20 (some 2) true ∷ []) empty_state refl

best-shows :
    shows_progress (best_child (child 1 in_progress 0) (child 2 waived 1 ∷ [])).status ≡ true
unfolding shows_progress best_child first_or child_leb sorted id_leb status_rank
best-shows = refl

any_of_result-best_example :
    ((any_of_result root_node (child 1 in_progress 0 ∷ child 2 waived 1 ∷ [])).status
      ≡ collapse (best_child (child 1 in_progress 0) (child 2 waived 1 ∷ [])).status)
    × HasFigures
        (best_child (child 1 in_progress 0) (child 2 waived 1 ∷ []))
        (any_of_result root_node (child 1 in_progress 0 ∷ child 2 waived 1 ∷ []))
    × All
        (λ y. child_leb (best_child (child 1 in_progress 0) (child 2 waived 1 ∷ [])) y ≡ true)
        (child 1 in_progress 0 ∷ child 2 waived 1 ∷ [])
any_of_result-best_example =
    any_of_result-best root_node (child 1 in_progress 0) (child 2 waived 1 ∷ []) best-shows
