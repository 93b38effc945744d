-- ===== src/Scenarios/Allocate.antt =====
-- allocator.py: `DeterministicMultiProgramAllocator.allocate`.
pub mod Optimal
pub mod Report
use smart_academic_planning.Prelude.{
  ℕ, suc, ◌+◌, Bool, true, false, ◌&&◌, not, List, [], ◌∷◌, leb, ◌==◌, if◌then◌else◌, any_by,
  length, sorted,
}
use smart_academic_planning.DegreeAudit.Records.{Uuid}
use smart_academic_planning.Scenarios.Candidates.{
  ScenarioAllocationType, primary, shared, unique_secondary, unallocated, AllocationCandidate,
  ProgramCombinationPolicy, Selection, is_primary, sort_allocations,
}
use smart_academic_planning.Scenarios.Objective.{
  AllocationObjective, no_objective, is_shared_source,
}
use smart_academic_planning.Scenarios.Search.{Search, search_start, choices_by_source, visit}

pub data ReasonCode : Type 0 where
  not_selected_by_global_objective shared_by_rule primary_requirement_allocation : ReasonCode
  unique_secondary_credit : ReasonCode

pub record CandidateAllocation : Type 0 where
  pub candidate : AllocationCandidate
  pub allocation_type : ScenarioAllocationType
  pub is_selected : Bool
  pub is_shared : Bool
  pub is_unique_to_program : Bool
  pub allocation_rank : ℕ
  pub reason_code : ReasonCode

pub record AllocationResult : Type 0 where
  pub allocations : List CandidateAllocation
  pub objective : AllocationObjective
  pub search_limit_reached : Bool

-- `candidate.candidate_id in selected_ids`
unfoldable pub is_chosen : Selection → AllocationCandidate → Bool
is_chosen best c = any_by (λ (x : AllocationCandidate). x.candidate_id == c.candidate_id) best

unfoldable pub type_of : Bool → Bool → AllocationCandidate → ScenarioAllocationType
type_of false is_shared c = unallocated
type_of true true c = shared
type_of true false c = if is_primary c then primary else unique_secondary

unfoldable pub reason_of : Bool → Bool → AllocationCandidate → ReasonCode
reason_of false is_shared c = not_selected_by_global_objective
reason_of true true c = shared_by_rule
reason_of true false c =
    if is_primary c then primary_requirement_allocation else unique_secondary_credit

-- The body of the loop over the ordered candidates, of which there are `total`.
unfoldable pub allocation_of : Selection → ℕ → ℕ → AllocationCandidate → CandidateAllocation
allocation_of best total rank c =
    let chosen = is_chosen best c in
    let is_shared = chosen && is_shared_source best c.source_key in
    record {
      candidate = c;
      allocation_type = type_of chosen is_shared c;
      is_selected = chosen;
      is_shared = is_shared;
      is_unique_to_program = chosen && (not is_shared && not (is_primary c));
      allocation_rank = if chosen then rank else total + rank;
      reason_code = reason_of chosen is_shared c;
    }

unfoldable pub allocations_from : Selection → ℕ → ℕ → Selection → List CandidateAllocation
allocations_from best total rank [] = []
allocations_from best total rank (c ∷ cs) =
    allocation_of best total rank c ∷ allocations_from best total (suc rank) cs

abbrev pub rank_order : CandidateAllocation → CandidateAllocation → Bool
rank_order x y = leb x.allocation_rank y.allocation_rank

-- `visit(0, ())`, over the choices of the ordered candidates.
unfoldable pub search : List ProgramCombinationPolicy → ℕ → Selection → Search
search policies search_limit ordered =
    visit policies search_limit (choices_by_source policies ordered) [] search_start

unfoldable pub report_of : Selection → Search → AllocationResult
report_of ordered s = record {
  allocations = sorted rank_order (allocations_from s.best_selection (length ordered) 0 ordered);
  objective = s.best_objective;
  search_limit_reached = s.limit_reached;
}

unfoldable pub allocate_ordered : List ProgramCombinationPolicy → ℕ → Selection → AllocationResult
allocate_ordered policies search_limit [] = record {
  allocations = [];
  objective = no_objective;
  search_limit_reached = false;
}
allocate_ordered policies search_limit (c ∷ cs) =
    report_of (c ∷ cs) (search policies search_limit (c ∷ cs))

unfoldable pub allocate : ℕ → Selection → List ProgramCombinationPolicy → AllocationResult
allocate search_limit candidates policies =
    allocate_ordered policies search_limit (sort_allocations candidates)
