-- ===== src/Scenarios/Policies.antt =====
-- allocator.py: the map of policies, `is_shareable` and `_is_valid_selection`.
use smart_academic_planning.Prelude.{
  Bool, true, false, ◌&&◌, ◌||◌, not, Option, none, some, List, [], ◌∷◌, ltb, leb, ◌==◌,
  if◌then◌else◌, filter_by, all_by, any_by, sum_if, map, flat_map_by, length,
}
use smart_academic_planning.DegreeAudit.Records.{Uuid, Credits}
use smart_academic_planning.DegreeAudit.Result.{SourceKey, source_eq}
use smart_academic_planning.Scenarios.Candidates.{
  ScenarioRelationshipType, primary_major, minor, second_major, certificate, concentration,
  AllocationCandidate, ProgramCombinationPolicy, Selection, is_primary,
}

-- (primary program version, secondary program version, relationship type)
abbrev pub PolicyKey : Type 0
PolicyKey = Uuid × Uuid × ScenarioRelationshipType

abbrev pub relationship_eq : ScenarioRelationshipType → ScenarioRelationshipType → Bool
relationship_eq primary_major primary_major = true
relationship_eq minor minor = true
relationship_eq second_major second_major = true
relationship_eq certificate certificate = true
relationship_eq concentration concentration = true
relationship_eq _ _ = false

abbrev pub policy_key_eq : PolicyKey → PolicyKey → Bool
policy_key_eq (a, b, r) (c, d, q) = a == c && (b == d && relationship_eq r q)

abbrev pub policy_key : ProgramCombinationPolicy → PolicyKey
policy_key p = (p.primary_program_version_id, p.secondary_program_version_id, p.relationship_type)

-- `policy_map.get(key)`: of the policies with the key, the comprehension keeps the last one.
unfoldable pub find_policy :
    List ProgramCombinationPolicy → PolicyKey → Option ProgramCombinationPolicy
find_policy [] key = none
find_policy (p ∷ ps) key = elim (find_policy ps key) [
  | some q ↦ some q
  | none ↦ if policy_key_eq (policy_key p) key then some p else none
]

-- The key of the policy between a primary candidate and another one.
abbrev pub key_between : AllocationCandidate → AllocationCandidate → PolicyKey
key_between primary c = (primary.program_version_id, c.program_version_id, c.relationship_type)

abbrev pub allows_sharing : List ProgramCombinationPolicy → PolicyKey → Bool
allows_sharing policies key = elim (find_policy policies key) [
  | none ↦ false
  | some p ↦ p.allows_double_counting
]

-- The last loop of `is_shareable`. The only primary candidate is the one that it skips.
unfoldable pub shares_with : List ProgramCombinationPolicy → AllocationCandidate → Selection → Bool
shares_with policies primary cs =
    all_by (λ c. is_primary c || allows_sharing policies (key_between primary c)) cs

-- The tests behind the one for the length.
unfoldable pub shareable_group : List ProgramCombinationPolicy → Selection → Bool
shareable_group policies cs =
    all_by (λ (c : AllocationCandidate). c.requirement_allows_overlap && c.is_earned) cs
    && elim (filter_by is_primary cs) [
      | [] ↦ false
      | p ∷ more ↦ elim more [ [] ↦ shares_with policies p cs | _ ∷ _ ↦ false ]
    ]

unfoldable pub is_shareable : List ProgramCombinationPolicy → Selection → Bool
is_shareable policies cs = if ltb (length cs) 2 then false else shareable_group policies cs

-- The first loop of `_is_valid_selection`: no requirement is met twice.
unfoldable pub distinct_requirements : List Uuid → Selection → Bool
distinct_requirements seen [] = true
distinct_requirements seen (c ∷ cs) =
    not (any_by (λ id. id == c.requirement_node_id) seen)
    && distinct_requirements (c.requirement_node_id ∷ seen) cs

-- The candidates of a source: the value of `by_source` under it.
unfoldable pub of_source : SourceKey → Selection → Selection
of_source key cs = filter_by (λ (c : AllocationCandidate). source_eq c.source_key key) cs

unfoldable pub sources_from : List SourceKey → Selection → List SourceKey
sources_from seen [] = []
sources_from seen (c ∷ cs) = elim (any_by (source_eq c.source_key) seen) [
  | true ↦ sources_from seen cs
  | false ↦ c.source_key ∷ sources_from (c.source_key ∷ seen) cs
]

-- The keys of `by_source`, in the order of insertion.
unfoldable pub sources_of : Selection → List SourceKey
sources_of = sources_from []

unfoldable pub sources_shareable : List ProgramCombinationPolicy → Selection → Bool
sources_shareable policies cs =
    all_by (λ key. ltb (length (of_source key cs)) 2 || is_shareable policies (of_source key cs))
      (sources_of cs)

-- What one group of several candidates adds to `shared_by_policy`.
unfoldable pub group_shares : Selection → List (PolicyKey × Credits)
group_shares cs = if ltb (length cs) 2 then [] else elim (filter_by is_primary cs) [
  | [] ↦ []
  | p ∷ _ ↦
      map
        (λ (c : AllocationCandidate). (key_between p c, if c.is_earned then c.credit_amount else 0))
        (filter_by (λ c. not (is_primary c)) cs)
]

unfoldable pub shares : Selection → List (PolicyKey × Credits)
shares cs = flat_map_by (λ key. group_shares (of_source key cs)) (sources_of cs)

-- `shared_by_policy[key]`
abbrev pub shared_by_policy : List (PolicyKey × Credits) → PolicyKey → Credits
shared_by_policy added key =
    sum_if (λ (e : PolicyKey × Credits). policy_key_eq e.0 key) (λ e. e.1) added

-- A group that is shared has its policy, so the read of a missing one does not happen.
unfoldable pub within_limit : List ProgramCombinationPolicy → PolicyKey → Credits → Bool
within_limit policies key shared = elim (find_policy policies key) [
  | none ↦ false
  | some p ↦ leb shared p.maximum_shared_credits
]

unfoldable pub shares_within_limits : List ProgramCombinationPolicy → Selection → Bool
shares_within_limits policies cs =
    all_by
      (λ (e : PolicyKey × Credits). within_limit policies e.0 (shared_by_policy (shares cs) e.0))
      (shares cs)

unfoldable pub is_valid_selection : List ProgramCombinationPolicy → Selection → Bool
is_valid_selection policies cs =
    distinct_requirements [] cs
    && (sources_shareable policies cs && shares_within_limits policies cs)
