-- ===== src/DegreeAudit/Evaluators/Available.antt =====
-- engine.py: `first_available_candidate`.
use mathlib.Core.List.{Mem, mem-cons_self, mem-cons_of_mem}
use mathlib.Core.List.Perm
use smart_academic_planning.Prelude.{
  Bool, true, false, Option, none, some, List, [], ◌∷◌, ◌≡◌, ◌⊎◌, inl, inr, if◌then◌else◌, refl,
  All, All-map, IsSorted, sorted-All_inv, sorted-perm,
}
use smart_academic_planning.DegreeAudit.Result.{SourceKey}
use smart_academic_planning.DegreeAudit.Allocator.{is_available}
use smart_academic_planning.DegreeAudit.Candidates.{CourseCandidate, candidate_leb, sort_candidates}
use smart_academic_planning.DegreeAudit.Candidates.Order.{
  candidate_leb_refl, sort_candidates-IsSorted,
}
use smart_academic_planning.DegreeAudit.Evaluators.Selection.{first_in, first_available_candidate}

module _ (used : List SourceKey) (overlap : Bool) where
  -- The candidate is not available, or it does not come before the other one.
  abbrev pub IsBehind : CourseCandidate → CourseCandidate → Type 0
  IsBehind x c = (is_available used c.source_key overlap ≡ false) ⊎ (candidate_leb x c ≡ true)

  -- Nothing is found and no candidate is available, or what is found is one of the candidates,
  -- it is available, and the others are behind it.
  abbrev pub IsFirst : List CourseCandidate → Option CourseCandidate → Type 0
  IsFirst cs none = All (λ c. is_available used c.source_key overlap ≡ false) cs
  IsFirst cs (some x) =
      Mem x cs × (is_available used x.source_key overlap ≡ true) × All (IsBehind x) cs

  IsFirst-cons :
      (c : CourseCandidate) (cs : List CourseCandidate) (found : Option CourseCandidate)
      → is_available used c.source_key overlap ≡ false
      → IsFirst cs found
      → IsFirst (c ∷ cs) found
  IsFirst-cons c cs none e h = (e, h)
  IsFirst-cons c cs (some x) e h = (mem-cons_of_mem c h.0, h.1, (inl e, h.2))

  first_in-IsFirst :
      (cs : List CourseCandidate)
      → IsSorted candidate_leb cs
      → IsFirst cs (first_in used overlap cs)
  unfolding first_in
  first_in-IsFirst [] h = tt
  first_in-IsFirst (c ∷ cs) h =
      go (is_available used c.source_key overlap) refl (first_in-IsFirst cs h.1)
    where
      go :
          (b : Bool)
          → is_available used c.source_key overlap ≡ b
          → IsFirst cs (first_in used overlap cs)
          → IsFirst (c ∷ cs) (if b then some c else first_in used overlap cs)
      go true e rest =
          (mem-cons_self, e, (inr (candidate_leb_refl c), All-map (λ x le. inr le) cs h.0))
      go false e rest = IsFirst-cons c cs (first_in used overlap cs) e rest

  IsFirst-sorted :
      (cs : List CourseCandidate) (found : Option CourseCandidate)
      → IsFirst (sort_candidates cs) found
      → IsFirst cs found
  unfolding sort_candidates
  IsFirst-sorted cs none h = sorted-All_inv candidate_leb _ cs h
  IsFirst-sorted cs (some x) h = (
    Perm.subset (sorted-perm candidate_leb cs) x h.0,
    h.1,
    sorted-All_inv candidate_leb (IsBehind x) cs h.2,
  )

-- From any list, no candidate is returned exactly where none is available; and a returned candidate
-- is one of the list and available, and each other candidate is unavailable or has a sort key that is no smaller.
pub first_available_candidate-IsFirst :
    (used : List SourceKey) (overlap : Bool) (cs : List CourseCandidate)
    → IsFirst used overlap cs (first_available_candidate used overlap cs)
unfolding first_available_candidate
first_available_candidate-IsFirst used overlap cs =
    IsFirst-sorted used overlap cs (first_in used overlap (sort_candidates cs))
      (first_in-IsFirst used overlap (sort_candidates cs) (sort_candidates-IsSorted cs))
