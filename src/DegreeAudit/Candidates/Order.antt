-- ===== src/DegreeAudit/Candidates/Order.antt =====
-- context.py: the order that `candidate_sort_key` puts on the candidates.
use smart_academic_planning.Prelude.{
  true, false, List, ◌≡◌, inl, inr, Bool-cases, IsSorted, sorted-IsSorted,
}
use smart_academic_planning.DegreeAudit.Keys.{key_leb-total, key_leb_trans}
use smart_academic_planning.DegreeAudit.Candidates.{
  CourseCandidate, candidate_leb, candidate_sort_key, sort_candidates,
}

candidate_leb-total : (x y : CourseCandidate) → candidate_leb x y ≡ false → candidate_leb y x ≡ true
unfolding candidate_leb
candidate_leb-total x y = key_leb-total (candidate_sort_key x) (candidate_sort_key y)

candidate_leb_trans :
    (x y z : CourseCandidate)
    → candidate_leb x y ≡ true
    → candidate_leb y z ≡ true
    → candidate_leb x z ≡ true
unfolding candidate_leb
candidate_leb_trans x y z =
    key_leb_trans (candidate_sort_key x) (candidate_sort_key y) (candidate_sort_key z)

pub candidate_leb_refl : (x : CourseCandidate) → candidate_leb x x ≡ true
candidate_leb_refl x = elim (Bool-cases (candidate_leb x x)) [
  | inl e ↦ e
  | inr e ↦ candidate_leb-total x x e
]

-- `sorted(candidates, key=candidate_sort_key)` is in the order of the key.
pub sort_candidates-IsSorted :
    (cs : List CourseCandidate) → IsSorted candidate_leb (sort_candidates cs)
unfolding sort_candidates
sort_candidates-IsSorted = sorted-IsSorted candidate_leb candidate_leb-total candidate_leb_trans
