-- ===== src/Scenarios/Allocate/Report.antt =====
-- allocator.py: the list of allocations that `allocate` returns.
use smart_academic_planning.Prelude.{
  ℕ, suc, ◌+◌, ◌≤◌, Bool, true, ◌||◌, not, List, [], ◌∷◌, map, ltb, length, sorted, All, All-map₂,
  IsSorted, sorted-IsSorted, sorted-perm, sorted-All, Perm, ◌≡◌, refl, ap, subst, arith,
}
use mathlib.Core.List.Perm
use smart_academic_planning.Scenarios.Candidates.{
  ProgramCombinationPolicy, Selection, sort_allocations, allocation_leb,
}
use smart_academic_planning.Scenarios.Search.{Search}
use smart_academic_planning.Scenarios.Allocate.{
  CandidateAllocation, AllocationResult, allocation_of, allocations_from, rank_order, report_of,
  search, allocate_ordered, allocate,
}

candidates-allocations_from :
    (best : Selection) (total rank : ℕ) (cs : Selection)
    → map (λ (a : CandidateAllocation). a.candidate) (allocations_from best total rank cs) ≡ cs
unfolding allocations_from allocation_of
candidates-allocations_from best total rank [] = refl
candidates-allocations_from best total rank (c ∷ cs) =
    ap (λ l. c ∷ l) (candidates-allocations_from best total (suc rank) cs)

-- The rank of an allocation is below the number of candidates exactly if it is selected.
abbrev IsRankedBy : ℕ → CandidateAllocation → Type 0
IsRankedBy total a = ltb a.allocation_rank total ≡ a.is_selected

allocations_from-IsRankedBy :
    (best : Selection) (total rank : ℕ) (cs : Selection)
    → rank + length cs ≤ total
    → All (IsRankedBy total) (allocations_from best total rank cs)
unfolding allocations_from allocation_of
allocations_from-IsRankedBy best total rank [] h = tt
allocations_from-IsRankedBy best total rank (c ∷ cs) h =
    (ground arith, allocations_from-IsRankedBy best total (suc rank) cs (omega arith))

-- The first allocation is selected, or the second one is not.
abbrev pub selected_first : CandidateAllocation → CandidateAllocation → Bool
selected_first x y = x.is_selected || not y.is_selected

selected_first-IsSorted :
    (total : ℕ) (rows : List CandidateAllocation)
    → All (IsRankedBy total) rows
    → IsSorted rank_order rows
    → IsSorted selected_first rows
selected_first-IsSorted total [] ranked h = tt
selected_first-IsSorted total (a ∷ rows) ranked h = (
  All-map₂ {P = IsRankedBy total} {Q = λ b. rank_order a b ≡ true} (λ b r le. before b r le) rows
      ranked.1 h.0,
  selected_first-IsSorted total rows ranked.1 h.1,
)
  where
    before :
        (b : CandidateAllocation)
        → IsRankedBy total b
        → rank_order a b ≡ true
        → selected_first a b ≡ true
    before b r le = let first : IsRankedBy total a = ranked.0 in ground arith

rank_order-IsSorted :
    (rows : List CandidateAllocation) → IsSorted rank_order (sorted rank_order rows)
rank_order-IsSorted = sorted-IsSorted rank_order (λ x y h. ground arith) (λ x y z h k. ground arith)

-- The allocations are those of the candidates, one for each, and the selected ones stand first.
abbrev pub IsCompleteReport : Selection → AllocationResult → Type 0
IsCompleteReport candidates r =
    Perm (map (λ (a : CandidateAllocation). a.candidate) r.allocations) candidates
    × IsSorted selected_first r.allocations

report_of-IsCompleteReport :
    (ordered : Selection) (s : Search) → IsCompleteReport ordered (report_of ordered s)
unfolding report_of
report_of-IsCompleteReport ordered s =
    let rows = allocations_from s.best_selection (length ordered) 0 ordered in
    (
      subst (λ l. Perm (map (λ (a : CandidateAllocation). a.candidate) (sorted rank_order rows)) l)
          (candidates-allocations_from s.best_selection (length ordered) 0 ordered)
          (Perm.map (λ (a : CandidateAllocation). a.candidate) (sorted-perm rank_order rows)),
      selected_first-IsSorted (length ordered) (sorted rank_order rows)
          (sorted-All rank_order (IsRankedBy (length ordered)) rows
            (allocations_from-IsRankedBy s.best_selection (length ordered) 0 ordered (omega arith)))
          (rank_order-IsSorted rows),
    )

allocate_ordered-IsCompleteReport :
    (policies : List ProgramCombinationPolicy) (search_limit : ℕ) (ordered : Selection)
    → IsCompleteReport ordered (allocate_ordered policies search_limit ordered)
unfolding allocate_ordered
allocate_ordered-IsCompleteReport policies search_limit [] = (Perm.refl [], tt)
allocate_ordered-IsCompleteReport policies search_limit (c ∷ cs) =
    report_of-IsCompleteReport (c ∷ cs) (search policies search_limit (c ∷ cs))

-- Whatever the limit, the allocations are one for each candidate, and every selected one stands
-- before every one that is not selected.
pub allocate-IsCompleteReport :
    (search_limit : ℕ) (candidates : Selection) (policies : List ProgramCombinationPolicy)
    → IsCompleteReport candidates (allocate search_limit candidates policies)
unfolding allocate sort_allocations
allocate-IsCompleteReport search_limit candidates policies =
    let ordered =
      allocate_ordered-IsCompleteReport policies search_limit (sort_allocations candidates) in
    (Perm.trans ordered.0 (sorted-perm allocation_leb candidates), ordered.1)
