-- ===== src/Scenarios/Objective.antt =====
-- allocator.py: `AllocationObjective` with its score, `sources_used_more_than_once`, `objective_for`.
use Prim.Native.Nat.{max}
use smart_academic_planning.Prelude.{
  ℕ, Bool, true, false, ◌&&◌, not, Option, none, some, List, [], ◌∷◌, ltb, filter_by, count_by,
  sum_if, sum_by, length, then_leb,
}
use smart_academic_planning.DegreeAudit.Keys.{SortKey, key_leb}
use smart_academic_planning.DegreeAudit.Records.{Credits}
use smart_academic_planning.DegreeAudit.Result.{SourceKey}
use smart_academic_planning.Scenarios.Candidates.{
  AllocationCandidate, ProgramCombinationPolicy, Selection, is_primary,
}
use smart_academic_planning.Scenarios.Policies.{find_policy, key_between, of_source, sources_of}

pub record AllocationObjective : Type 0 where
  pub satisfied_required_requirements : ℕ
  pub satisfied_required_credits : Credits
  pub remaining_required_credits : Credits
  pub shared_credits : Credits
  pub unique_secondary_credits : Credits
  pub total_earned_credits : Credits
  pub manual_review_allocations : ℕ

-- The first three components of `score()`, and the last three, which it negates.
abbrev pub gains : AllocationObjective → SortKey
gains o =
    (o.satisfied_required_requirements, o.unique_secondary_credits, o.satisfied_required_credits)

abbrev pub losses : AllocationObjective → SortKey
losses o = (o.remaining_required_credits, o.shared_credits, o.manual_review_allocations)

-- `x.score() <= y.score()`
unfoldable pub score_leb : AllocationObjective → AllocationObjective → Bool
score_leb x y = then_leb key_leb (λ l m. key_leb m l) (gains x, losses x) (gains y, losses y)

unfoldable pub sources_used_more_than_once : Selection → List SourceKey
sources_used_more_than_once cs =
    filter_by (λ key. ltb 1 (length (of_source key cs))) (sources_of cs)

abbrev pub is_shared_source : Selection → SourceKey → Bool
is_shared_source cs key = ltb 1 (length (of_source key cs))

-- `max(candidate.credit_amount ...)` over the candidates of a source.
abbrev pub largest : Selection → Credits
largest [] = 0
largest (c ∷ cs) = max c.credit_amount (largest cs)

abbrev pub first_primary : Selection → Option AllocationCandidate
first_primary cs = elim (filter_by is_primary cs) [ [] ↦ none | p ∷ _ ↦ some p ]

-- The body of the loop that counts `manual_review_allocations`.
unfoldable pub needs_review : List ProgramCombinationPolicy → Selection → AllocationCandidate → Bool
needs_review policies cs c = not (is_primary c) && elim (first_primary cs) [
  | none ↦ false
  | some p ↦ elim (find_policy policies (key_between p c)) [
    | none ↦ true
    | some policy ↦ policy.requires_manual_confirmation
  ]
]

unfoldable pub objective_for : List ProgramCombinationPolicy → Selection → AllocationObjective
objective_for policies cs = record {
  satisfied_required_requirements = length cs;
  satisfied_required_credits = sum_by (λ c. c.credit_amount) cs;
  remaining_required_credits = 0;
  shared_credits = sum_by (λ key. largest (of_source key cs)) (sources_used_more_than_once cs);
  unique_secondary_credits =
      sum_if
        (λ (c : AllocationCandidate).
          not (is_primary c) && (not (is_shared_source cs c.source_key) && c.is_earned))
        (λ c. c.credit_amount) cs;
  total_earned_credits =
      sum_by (λ key. largest (of_source key cs))
        (sources_of (filter_by (λ (c : AllocationCandidate). c.is_earned) cs));
  manual_review_allocations = count_by (needs_review policies cs) cs;
}

abbrev pub no_objective : AllocationObjective
no_objective = record {
  satisfied_required_requirements = 0;
  satisfied_required_credits = 0;
  remaining_required_credits = 0;
  shared_credits = 0;
  unique_secondary_credits = 0;
  total_earned_credits = 0;
  manual_review_allocations = 0;
}
