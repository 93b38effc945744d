-- ===== src/Scenarios/Tests.antt =====
-- The theorems on the allocation of candidates, applied to two courses of a major and a minor.
use smart_academic_planning.Prelude.{
  true, false, some, List, [], ◌∷◌, ◌++◌, map, length, min, sorted, ltb, codes, ◌≡◌, refl, ap, sym,
  subst, ◌∙◌, ◌⊎◌,
}
use mathlib.Core.List.{Mem, mem-cons_self, mem-cons_of_mem}
use smart_academic_planning.DegreeAudit.Records.{Uuid}
use smart_academic_planning.DegreeAudit.Result.{attempt}
use smart_academic_planning.Scenarios.Candidates.{
  ScenarioRelationshipType, primary_major, minor, AllocationCandidate, ProgramCombinationPolicy,
  Selection, sort_allocations, allocation_leb, digits, show_number, hex, show_uuid, join,
  stable_candidate_key, texts_leb,
}
use smart_academic_planning.Scenarios.Policies.{
  find_policy, shares_with, shareable_group, is_shareable, distinct_requirements, of_source,
  sources_from, sources_of, sources_shareable, group_shares, shares, within_limit,
  shares_within_limits, is_valid_selection,
}
use smart_academic_planning.Scenarios.Objective.{objective_for}
use smart_academic_planning.Scenarios.Search.{
  search_start, pairs, choices_for, choices_by_source, visit,
}
use smart_academic_planning.Scenarios.Search.Linear.{selections, scan, visit-eq-scan}
use smart_academic_planning.Scenarios.Allocate.{search, allocate}
use smart_academic_planning.Scenarios.Allocate.Optimal.{
  combinations, FallsShort, search_counts, search-IsSound, search-IsNoBetter, IsNoBetterThan,
  search_maximal,
}
use smart_academic_planning.Scenarios.Allocate.Report.{IsCompleteReport, allocate-IsCompleteReport}

abbrev candidate_of : Uuid → Uuid → ScenarioRelationshipType → Uuid → AllocationCandidate
candidate_of id source relationship version = record {
  candidate_id = id;
  source_key = (attempt, source);
  course_id = some source;
  course_code = codes "CS";
  program_version_id = version;
  relationship_type = relationship;
  requirement_node_id = id;
  requirement_code = codes "R";
  requirement_display_order = 1;
  requirement_allows_overlap = true;
  program_priority = version;
  credit_amount = 30;
  is_earned = true;
  is_completed = true;
  is_in_progress = false;
  is_planned = false;
  attempt_number = 1;
}

abbrev in_major : AllocationCandidate
in_major = candidate_of 4 1 primary_major 0

abbrev in_minor : AllocationCandidate
in_minor = candidate_of 5 1 minor 1

abbrev combination_rule : ProgramCombinationPolicy
combination_rule = record {
  primary_program_version_id = 0;
  secondary_program_version_id = 1;
  relationship_type = minor;
  maximum_shared_credits = 30;
  minimum_unique_secondary_credits = 0;
  minimum_unique_courses = 0;
  allows_double_counting = true;
  requires_manual_confirmation = false;
}

abbrev policies : List ProgramCombinationPolicy
policies = combination_rule ∷ []

abbrev candidates : Selection
candidates = in_major ∷ in_minor ∷ []

-- Both requirements of the shared course are met.
abbrev shared_course : Selection
shared_course = in_major ∷ in_minor ∷ []

visit-eq-scan_example :
    visit policies 9 (([] ∷ shared_course ∷ []) ∷ []) [] search_start
    ≡ scan policies 9
        (map (λ r. [] ++ r) (selections (([] ∷ shared_course ∷ []) ∷ [])))
        search_start
visit-eq-scan_example =
    visit-eq-scan policies 9 (([] ∷ shared_course ∷ []) ∷ []) [] search_start (tt, tt)

search_counts_example :
    ((search policies 9 candidates).evaluated ≡ min (length (combinations policies candidates)) 9)
    × ((search policies 9 candidates).limit_reached
        ≡ ltb 9 (length (combinations policies candidates)))
search_counts_example = search_counts policies 9 candidates

search-IsSound_example :
    (is_valid_selection policies (search policies 9 candidates).best_selection ≡ true)
    × ((search policies 9 candidates).best_objective
        ≡ objective_for policies (search policies 9 candidates).best_selection)
    × (((search policies 9 candidates).best_selection ≡ [])
        ⊎ Mem (search policies 9 candidates).best_selection (combinations policies candidates))
search-IsSound_example = search-IsSound policies 9 candidates

allocate-IsCompleteReport_example : IsCompleteReport candidates (allocate 9 candidates policies)
allocate-IsCompleteReport_example = allocate-IsCompleteReport 9 candidates policies

candidates-combine :
    combinations policies candidates ≡ [] ∷ (in_major ∷ []) ∷ shared_course ∷ (in_minor ∷ []) ∷ []
unfolding combinations selections choices_by_source choices_for sources_of sources_from of_source
    sort_allocations allocation_leb is_shareable shareable_group shares_with find_policy pairs
    texts_leb stable_candidate_key show_number digits hex show_uuid join sorted
candidates-combine = refl

few_combinations : (search policies 9 candidates).limit_reached ≡ false
few_combinations =
    (search_counts policies 9 candidates).1 ∙ ap (λ l. ltb 9 (length l)) candidates-combine

shared-Mem : Mem shared_course (combinations policies candidates)
shared-Mem =
    subst (Mem shared_course) (sym candidates-combine)
      (mem-cons_of_mem [] (mem-cons_of_mem (in_major ∷ []) mem-cons_self))

shared-IsValid : is_valid_selection policies shared_course ≡ true
unfolding is_valid_selection distinct_requirements sources_shareable is_shareable shareable_group
    shares_with sources_of sources_from of_source shares_within_limits shares group_shares
    within_limit find_policy
shared-IsValid = refl

search-IsNoBetter_example :
    IsNoBetterThan policies (search policies 9 candidates).best_selection shared_course
search-IsNoBetter_example =
    search-IsNoBetter policies 9 candidates shared_course few_combinations shared-Mem shared-IsValid

search_maximal_example :
    FallsShort
      (objective_for policies shared_course)
      (objective_for policies (search policies 9 candidates).best_selection)
search_maximal_example =
    search_maximal policies 9 candidates shared_course few_combinations shared-Mem shared-IsValid
