-- ===== src/DegreeAudit/Status/Children.antt =====
-- The statuses that `all_of_status` and `any_of_status` make of the children's statuses.
use smart_academic_planning.Prelude.{
  ℕ, ◌≤◌, ◌<◌, true, false, List, [], ◌∷◌, ◌≡◌, refl, ◌↔◌, all_by_iff, All, arith,
}
use smart_academic_planning.DegreeAudit.Records.{
  satisfied, in_progress, planned, partially_satisfied, not_satisfied, waived,
  manual_review_required, not_applicable,
}
use smart_academic_planning.DegreeAudit.Status.{
  Status, status_rank, status_eq, occurs, is_satisfied_like, shows_progress, all_of_status,
  any_of_status,
}

no_manual :
    (statuses : List Status)
    → All (λ s. is_satisfied_like s ≡ true) statuses
    → occurs manual_review_required statuses ≡ false
unfolding occurs status_eq status_rank is_satisfied_like
no_manual [] h = refl
no_manual (s ∷ ss) h = ground (arith, no_manual ss h.1)

-- A list of children is satisfied exactly if each of them is satisfied, waived or not applicable.
pub all_of_status-eq-satisfied :
    (statuses : List Status)
    → (all_of_status statuses ≡ satisfied) ↔ All (λ s. is_satisfied_like s ≡ true) statuses
unfolding all_of_status
all_of_status-eq-satisfied statuses = (
  λ h. (all_by_iff is_satisfied_like statuses).0 (ground arith),
  λ h. ground (arith, no_manual statuses h, (all_by_iff is_satisfied_like statuses).1 h),
)

-- A status that an earlier rank would hide.
occurs_above :
    (s : Status) (b : ℕ) (statuses : List Status)
    → All (λ t. b ≤ status_rank t) statuses
    → status_rank s < b
    → occurs s statuses ≡ false
unfolding occurs status_eq
occurs_above s b [] h low = refl
occurs_above s b (t ∷ ts) h low = ground (arith, occurs_above s b ts h.1 low)

-- `any_of_status` reports a waived child as satisfied.
abbrev pub collapse : Status → Status
collapse waived = satisfied
collapse s = s

-- The status of the children is that of a child of the lowest rank, if that child shows progress.
pub any_of_status-lowest :
    (statuses : List Status) (b : Status)
    → occurs b statuses ≡ true
    → All (λ t. status_rank b ≤ status_rank t) statuses
    → shows_progress b ≡ true
    → any_of_status statuses ≡ collapse b
unfolding any_of_status shows_progress status_rank
any_of_status-lowest statuses satisfied here low shown = ground arith
any_of_status-lowest statuses waived here low shown = ground arith
any_of_status-lowest statuses in_progress here low shown =
    ground (arith, occurs_above satisfied 2 statuses low, occurs_above waived 2 statuses low)
any_of_status-lowest statuses planned here low shown = ground (
  arith,
  occurs_above satisfied 3 statuses low,
  occurs_above waived 3 statuses low,
  occurs_above in_progress 3 statuses low,
)
any_of_status-lowest statuses partially_satisfied here low shown = ground (
  arith,
  occurs_above satisfied 4 statuses low,
  occurs_above waived 4 statuses low,
  occurs_above in_progress 4 statuses low,
  occurs_above planned 4 statuses low,
)
any_of_status-lowest statuses not_satisfied here low shown = cc
any_of_status-lowest statuses manual_review_required here low shown = cc
any_of_status-lowest statuses not_applicable here low shown = cc
