-- ===== src/DegreeAudit/Evaluators/Selection.antt =====
-- engine.py: the loops that pick candidates: `first_available_candidate`,
-- `select_distinct_candidates` and the loop of `ChooseNEvaluator`; and the reserving of a selection.
use smart_academic_planning.Prelude.{
  ℕ, zero, suc, Bool, true, false, not, ◌||◌, Option, none, some, List, [], ◌∷◌, if◌then◌else◌,
}
use smart_academic_planning.DegreeAudit.Records.{Uuid, RequirementNode}
use smart_academic_planning.DegreeAudit.Result.{SourceKey, CourseApplicationResult}
use smart_academic_planning.DegreeAudit.Monad.{Audit, return, ◌>>=◌}
use smart_academic_planning.DegreeAudit.Allocator.{is_available, reserve}
use smart_academic_planning.DegreeAudit.Candidates.{CourseCandidate, sort_candidates}
use smart_academic_planning.DegreeAudit.Context.{is_seen, note_course}
use smart_academic_planning.DegreeAudit.Evaluators.Base.{application_from_candidate}

unfoldable pub first_in : List SourceKey → Bool → List CourseCandidate → Option CourseCandidate
first_in used overlap [] = none
first_in used overlap (c ∷ cs) =
    if is_available used c.source_key overlap then some c else first_in used overlap cs

unfoldable pub first_available_candidate :
    List SourceKey → Bool → List CourseCandidate → Option CourseCandidate
first_available_candidate used overlap cs = first_in used overlap (sort_candidates cs)

-- The two `continue` tests of both loops.
unfoldable pub passed_over : List SourceKey → Bool → List Uuid → CourseCandidate → Bool
passed_over used overlap seen c =
    elim c.course_id [ none ↦ false | some id ↦ is_seen id seen ]
    || not (is_available used c.source_key overlap)

unfoldable pub select_distinct :
    List SourceKey → Bool → List Uuid → List CourseCandidate → List CourseCandidate
select_distinct used overlap seen [] = []
select_distinct used overlap seen (c ∷ cs) = elim (passed_over used overlap seen c) [
  | true ↦ select_distinct used overlap seen cs
  | false ↦ c ∷ select_distinct used overlap (note_course c.course_id seen) cs
]

unfoldable pub select_distinct_candidates :
    List SourceKey → Bool → List CourseCandidate → List CourseCandidate
select_distinct_candidates used overlap cs = select_distinct used overlap [] (sort_candidates cs)

-- The loop of `ChooseNEvaluator`: it breaks when `left` more candidates have been selected.
unfoldable pub choose :
    ℕ → List SourceKey → Bool → List Uuid → List CourseCandidate → List CourseCandidate
choose zero used overlap seen cs = []
choose (suc left) used overlap seen [] = []
choose (suc left) used overlap seen (c ∷ cs) = elim (passed_over used overlap seen c) [
  | true ↦ choose (suc left) used overlap seen cs
  | false ↦ c ∷ choose left used overlap (note_course c.course_id seen) cs
]

-- The loop that reserves each selected source and makes its application.
unfoldable pub apply_all :
    RequirementNode → List CourseCandidate → Audit (List CourseApplicationResult)
apply_all node [] = return []
apply_all node (c ∷ cs) = do
  is_shared ← reserve c.source_key node.allows_overlap
  rest ← apply_all node cs
  return (application_from_candidate node c is_shared ∷ rest)
