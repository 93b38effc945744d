-- ===== src/Scenarios/Candidates.antt =====
-- apps/api/app/services/academic_scenarios/allocator.py: the records, `candidate_sort_key` and
-- `stable_candidate_key`. The fields of prose are left out.
use Prim.Native.Nat.{◌^◌}
use smart_academic_planning.Prelude.{
  ℕ, ◌+◌, ◌/◌, ◌%◌, zero, suc, Bool, true, false, ◌&&◌, ◌||◌, not, Option, List, [], ◌∷◌, ◌++◌,
  Text, codes, text_eq, text_leb, ltb, leb, ◌==◌, if◌then◌else◌, sorted, ◌≡◌, refl, arith,
  text_leb-total, text_leb_trans,
}
use smart_academic_planning.DegreeAudit.Records.{Uuid, Credits}
use smart_academic_planning.DegreeAudit.Result.{SourceKey}

pub data ScenarioRelationshipType : Type 0 where
  primary_major minor second_major certificate concentration : ScenarioRelationshipType

pub data ScenarioAllocationType : Type 0 where
  primary shared unique_secondary total_credit_only unallocated : ScenarioAllocationType

pub record AllocationCandidate : Type 0 where
  pub candidate_id : Uuid
  pub source_key : SourceKey
  pub course_id : Option Uuid
  pub course_code : Text
  pub program_version_id : Uuid
  pub relationship_type : ScenarioRelationshipType
  pub requirement_node_id : Uuid
  pub requirement_code : Text
  pub requirement_display_order : ℕ
  pub requirement_allows_overlap : Bool
  pub program_priority : ℕ
  pub credit_amount : Credits
  pub is_earned : Bool
  pub is_completed : Bool
  pub is_in_progress : Bool
  pub is_planned : Bool
  pub attempt_number : ℕ

pub record ProgramCombinationPolicy : Type 0 where
  pub primary_program_version_id : Uuid
  pub secondary_program_version_id : Uuid
  pub relationship_type : ScenarioRelationshipType
  pub maximum_shared_credits : Credits
  pub minimum_unique_secondary_credits : Credits
  pub minimum_unique_courses : ℕ
  pub allows_double_counting : Bool
  pub requires_manual_confirmation : Bool

abbrev pub Selection : Type 0
Selection = List AllocationCandidate

abbrev pub is_primary : AllocationCandidate → Bool
is_primary c = elim c.relationship_type [ primary_major ↦ true | _ ↦ false ]

-- 0 if the relationship is the primary major, else 1.
abbrev pub relationship_rank : AllocationCandidate → ℕ
relationship_rank c = if is_primary c then 0 else 1

-- One step of Python's order of tuples.
abbrev pub text_then : Text → Text → Bool → Bool
text_then s t rest = (text_leb s t && not (text_eq s t)) || (text_eq s t && rest)

abbrev pub number_then : ℕ → ℕ → Bool → Bool
number_then a b rest = ltb a b || (a == b && rest)

-- `candidate_sort_key(x) <= candidate_sort_key(y)`
unfoldable pub allocation_leb : AllocationCandidate → AllocationCandidate → Bool
allocation_leb x y = number_then x.program_priority y.program_priority (
    number_then (relationship_rank x) (relationship_rank y) (
      number_then x.requirement_display_order y.requirement_display_order (
        text_then x.requirement_code y.requirement_code (
          text_then x.course_code y.course_code
            (number_then x.attempt_number y.attempt_number (leb x.candidate_id y.candidate_id))))))

unfoldable pub sort_allocations : Selection → Selection
sort_allocations = sorted allocation_leb

-- `str` of a number, its last digit first; the fuel is the number itself, which has no more digits.
unfoldable pub digits : ℕ → ℕ → Text
digits zero n = (n % 10 + 48) ∷ []
digits (suc fuel) n = elim (ltb n 10) [
  | true ↦ (n + 48) ∷ []
  | false ↦ digits fuel (n / 10) ++ (n % 10 + 48) ∷ []
]

unfoldable pub show_number : ℕ → Text
show_number n = digits n n

abbrev pub hex_digit : ℕ → ℕ
hex_digit d = if ltb d 10 then d + 48 else d + 87

-- The last digits of a number in base 16, as many as the count says.
unfoldable pub hex : ℕ → ℕ → Text
hex zero n = []
hex (suc count) n = hex count (n / 16) ++ hex_digit (n % 16) ∷ []

-- `str` of a UUID: its 32 digits in five groups.
unfoldable pub show_uuid : Uuid → Text
show_uuid id =
    hex 8 (id / 16 ^ 24)
    ++ (codes "-"
        ++ (hex 4 (id / 16 ^ 20)
            ++ (codes "-"
                ++ (hex 4 (id / 16 ^ 16)
                    ++ (codes "-" ++ (hex 4 (id / 16 ^ 12) ++ (codes "-" ++ hex 12 id)))))))

unfoldable pub join : Text → List Text → Text
join separator [] = []
join separator (t ∷ []) = t
join separator (t ∷ u ∷ rest) = t ++ (separator ++ join separator (u ∷ rest))

unfoldable pub stable_candidate_key : AllocationCandidate → Text
stable_candidate_key c = join (codes "|") (
    show_number c.program_priority
    ∷ show_number (relationship_rank c)
    ∷ show_number c.requirement_display_order
    ∷ c.requirement_code
    ∷ c.course_code
    ∷ show_number c.attempt_number
    ∷ show_uuid c.candidate_id
    ∷ [])

-- The order of tuples of texts. Two texts are equal if each is at most the other.
unfoldable pub texts_leb : List Text → List Text → Bool
texts_leb [] ts = true
texts_leb (s ∷ ss) [] = false
texts_leb (s ∷ ss) (t ∷ ts) = text_leb s t && (not (text_leb t s) || texts_leb ss ts)

pub texts_leb-total : (ss ts : List Text) → texts_leb ss ts ≡ false → texts_leb ts ss ≡ true
unfolding texts_leb
texts_leb-total [] ts h = cc
texts_leb-total (s ∷ ss) [] h = refl
texts_leb-total (s ∷ ss) (t ∷ ts) h =
    ground (arith, text_leb-total s t, text_leb-total t s, texts_leb-total ss ts)

pub texts_leb_trans :
    (ss ts us : List Text)
    → texts_leb ss ts ≡ true
    → texts_leb ts us ≡ true
    → texts_leb ss us ≡ true
unfolding texts_leb
texts_leb_trans [] ts us h k = refl
texts_leb_trans (s ∷ ss) [] us h k = cc
texts_leb_trans (s ∷ ss) (t ∷ ts) [] h k = cc
texts_leb_trans (s ∷ ss) (t ∷ ts) (u ∷ us) h k = ground (
  arith,
  text_leb_trans s t u,
  text_leb_trans t u s,
  text_leb_trans u s t,
  texts_leb_trans ss ts us,
)
