-- ===== src/DegreeAudit/Evaluators/Twice.antt =====
-- engine.py: the reservations that `ChooseNEvaluator` makes, and what `is_shared` records of them.
use smart_academic_planning.Prelude.{
  true, false, some, [], ◌∷◌, ◌≡◌, map, ◌==◌, refl, sym, subst, List, arith,
}
use mathlib.Core.Path.{ap₂}
use smart_academic_planning.DegreeAudit.Records.{Uuid, RequirementNode}
use smart_academic_planning.DegreeAudit.Result.{CourseApplicationResult}
use smart_academic_planning.DegreeAudit.Monad.{AuditState, return}
use smart_academic_planning.DegreeAudit.Allocator.{is_used, is_available, reserve}
use smart_academic_planning.DegreeAudit.Frames.{Ends, Ends-bind}
use smart_academic_planning.DegreeAudit.Candidates.{CourseCandidate}
use smart_academic_planning.DegreeAudit.Evaluators.Base.{application_from_candidate}
use smart_academic_planning.DegreeAudit.Evaluators.Selection.{choose, passed_over, apply_all}
use smart_academic_planning.DegreeAudit.Context.{is_seen}
use smart_academic_planning.DegreeAudit.Allocator.Exclusive.{is_used-add_source, source_eq_refl}

-- Of two candidates with one source, which is not reserved, and with different courses, a node
-- without overlap that chooses two selects both, and the second application is marked as shared.
pub choose_counts_twice :
    (node : RequirementNode) (a b : CourseCandidate) (i j : Uuid) (s : AuditState)
    → node.allows_overlap ≡ false
    → a.source_key ≡ b.source_key
    → is_used a.source_key s.used_sources ≡ false
    → a.course_id ≡ some i
    → b.course_id ≡ some j
    → (i == j) ≡ false
    → (choose 2 s.used_sources node.allows_overlap [] (a ∷ b ∷ []) ≡ a ∷ b ∷ [])
      × Ends ⊥ (apply_all node (a ∷ b ∷ []) s) (λ applications s'.
        map (λ (x : CourseApplicationResult). x.is_shared) applications ≡ false ∷ true ∷ [])
unfolding choose passed_over is_available is_seen apply_all reserve application_from_candidate
choose_counts_twice node a b i j s exclusive same free ai bj distinct = (
  ground arith,
  ground (
    arith,
    is_used-add_source b.source_key a.source_key s.used_sources,
    source_eq_refl a.source_key,
  ),
)

-- The state is as before, and an application is shared exactly if its source was reserved.
abbrev pub MarksReserved :
    AuditState → List CourseCandidate → List CourseApplicationResult → AuditState → Type 0
MarksReserved s cs applications s' =
    (s' ≡ s)
    × (map (λ (x : CourseApplicationResult). x.is_shared) applications
        ≡ map (λ (c : CourseCandidate). is_used c.source_key s.used_sources) cs)

-- A node that allows overlap leaves the state as it is, and marks an application as shared exactly if
-- its source was reserved in the state that it started from.
pub apply_all-overlap :
    (node : RequirementNode) (cs : List CourseCandidate) (s : AuditState)
    → node.allows_overlap ≡ true
    → Ends ⊥ (apply_all node cs s) (MarksReserved s cs)
unfolding apply_all reserve application_from_candidate
apply_all-overlap node [] s overlap = (refl, refl)
apply_all-overlap node (c ∷ cs) s overlap =
    Ends-bind ⊥ (λ shared s'. (s' ≡ s) × (shared ≡ is_used c.source_key s.used_sources))
      (MarksReserved s (c ∷ cs)) (reserve c.source_key node.allows_overlap) _ s
      (rw overlap (refl, refl))
      λ shared s₁ p.
        Ends-bind ⊥ (MarksReserved s cs) (MarksReserved s (c ∷ cs)) (apply_all node cs)
          (λ rest. return (application_from_candidate node c shared ∷ rest)) s₁
          (subst (λ t. Ends ⊥ (apply_all node cs t) (MarksReserved s cs)) (sym p.0)
            (apply_all-overlap node cs s overlap))
          λ rest s₂ q. (q.0, ap₂ (λ x xs. x ∷ xs) p.1 q.1)
