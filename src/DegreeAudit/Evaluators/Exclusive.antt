-- ===== src/DegreeAudit/Evaluators/Exclusive.antt =====
-- engine.py: the loop of `evaluate_credit_pool` that reserves and applies sources.
use smart_academic_planning.Prelude.{
  suc, ◌+◌, Bool, true, false, not, ◌&&◌, List, [], ◌∷◌, ◌≡◌, All, length, leb, if◌then◌else◌,
  arith,
}
use smart_academic_planning.DegreeAudit.Records.{Credits, RequirementNode}
use smart_academic_planning.DegreeAudit.Result.{SourceKey, CourseApplicationResult}
use smart_academic_planning.DegreeAudit.Monad.{AuditState}
use smart_academic_planning.DegreeAudit.Allocator.{add_source, is_available, reserve}
use smart_academic_planning.DegreeAudit.Frames.{Ends, Ends-if, Ends-if_eq, Ends-bool_eq, Ends-bind}
use smart_academic_planning.DegreeAudit.Candidates.{CourseCandidate}
use smart_academic_planning.DegreeAudit.Evaluators.Base.{application_from_candidate}
use smart_academic_planning.DegreeAudit.Evaluators.Pools.{Pool, take_source, apply_credits}

-- No application is shared, and each has taken a source that no one had reserved.
abbrev pub TakesFresh : AuditState → List CourseApplicationResult → AuditState → Type 0
TakesFresh s applications s' =
    All (λ (a : CourseApplicationResult). a.is_shared ≡ false) applications
    × (length s'.used_sources ≡ length s.used_sources + length applications)

abbrev Fresh : AuditState → Bool → AuditState → Type 0
Fresh s shared s' = (shared ≡ false) × (length s'.used_sources ≡ suc (length s.used_sources))

-- The reservation of a free source without overlap.
reserve-Fresh :
    (key : SourceKey) (overlap : Bool) (s : AuditState)
    → overlap ≡ false
    → is_available s.used_sources key overlap ≡ true
    → Ends ⊥ (reserve key overlap s) (Fresh s)
unfolding reserve is_available add_source
reserve-Fresh key true s exclusive free = absurd (ground arith)
reserve-Fresh key false s exclusive free = (ground arith, ground arith)

module _ (node : RequirementNode) (pool : Pool) (exclusive : node.allows_overlap ≡ false)
    (reserves : pool.reserve_sources ≡ true) where
  take-Fresh :
      (c : CourseCandidate) (s : AuditState)
      → is_available s.used_sources c.source_key node.allows_overlap ≡ true
      → Ends ⊥ (take_source node pool c s) (Fresh s)
  unfolding take_source
  take-Fresh c s free =
      Ends-if_eq ⊥ (Fresh s) s pool.reserve_sources _ _
        (λ _. reserve-Fresh c.source_key node.allows_overlap s exclusive free)
        (λ e. absurd (ground arith))

  applied-Fresh :
      (s s₁ s₂ : AuditState) (a : CourseApplicationResult) (rest : List CourseApplicationResult)
      → Fresh s a.is_shared s₁
      → TakesFresh s₁ rest s₂
      → TakesFresh s (a ∷ rest) s₂
  applied-Fresh s s₁ s₂ a rest p q = ((p.0, q.0), omega arith)

  -- The loop of a credit pool that reserves its sources, for a node without overlap, returns: no
  -- application is marked as shared, and the reserved sources grow by one for each application.
  pub apply_credits-TakesFresh :
      (cs : List CourseCandidate) (applied : Credits) (s : AuditState)
      → Ends ⊥ (apply_credits node pool applied cs s) (TakesFresh s)
  unfolding apply_credits application_from_candidate
  apply_credits-TakesFresh [] applied s = (tt, omega arith)
  apply_credits-TakesFresh (c ∷ cs) applied s =
      Ends-if ⊥ (TakesFresh s) s (leb pool.required_credits applied) _ _ (tt, omega arith)
        (Ends-bool_eq ⊥ (TakesFresh s) s
          (pool.reserve_sources
            && not (is_available s.used_sources c.source_key node.allows_overlap))
          _ _ (λ _. apply_credits-TakesFresh cs applied s)
          (λ free.
            Ends-bind ⊥ _ (TakesFresh s) (take_source node pool c) _ s
              (take-Fresh c s (ground arith))
              λ shared s₁ p.
                Ends-bind ⊥ _ (TakesFresh s) (apply_credits node pool _ cs) _ s₁
                  (apply_credits-TakesFresh cs
                    (if c.is_completed then applied + c.credits else applied) s₁)
                  λ rest s₂ q.
                    applied-Fresh s s₁ s₂ (application_from_candidate node c shared) rest p q))
