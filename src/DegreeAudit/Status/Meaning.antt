-- ===== src/DegreeAudit/Status/Meaning.antt =====
-- engine.py: `count_status` and `credit_status`, by the sums of the counts.
use smart_academic_planning.Prelude.{ℕ, ◌+◌, ◌≤◌, ltb, leb, if◌then◌else◌, ◌≡◌, ◌↔◌, arith}
use smart_academic_planning.DegreeAudit.Records.{satisfied}
use smart_academic_planning.DegreeAudit.Status.{count_status, credit_status, status_rank}

pub count_status-eq-satisfied :
    (required c i p : ℕ) → (count_status required c i p ≡ satisfied) ↔ (required ≤ c)
unfolding count_status
count_status-eq-satisfied required c i p = ground arith

pub credit_status-eq-satisfied :
    (required c i p : ℕ) → (credit_status required c i p ≡ satisfied) ↔ (required ≤ c)
unfolding credit_status
credit_status-eq-satisfied required c i p = ground arith

-- The rank of a count's status, by the sums of the counts.
abbrev rank_of_sums : ℕ → ℕ → ℕ → ℕ → ℕ
rank_of_sums required x y z =
    if leb required x
    then 0
    else if leb required y
    then 2
    else if leb required z
    then 3
    else if ltb 0 z
    then 4
    else 5

status_rank-count_status :
    (required c i p : ℕ)
    → status_rank (count_status required c i p) ≡ rank_of_sums required c (c + i) (c + i + p)
unfolding count_status status_rank
status_rank-count_status required c i p = ground arith

rank_of_sums_mono :
    (required x y z x' y' z' : ℕ)
    → x ≤ x'
    → y ≤ y'
    → z ≤ z'
    → rank_of_sums required x' y' z' ≤ rank_of_sums required x y z
rank_of_sums_mono required x y z x' y' z' h k l = ground arith

-- More completed, in-progress and planned records, or a record that moves on from planned to in
-- progress to completed, never give a status of a higher rank.
pub status_rank-count_status_mono :
    (required c i p c' i' p' : ℕ)
    → c ≤ c'
    → c + i ≤ c' + i'
    → c + i + p ≤ c' + i' + p'
    → status_rank (count_status required c' i' p') ≤ status_rank (count_status required c i p)
status_rank-count_status_mono required c i p c' i' p' h k l = omega (
  arith,
  status_rank-count_status required c i p,
  status_rank-count_status required c' i' p',
  rank_of_sums_mono required c (c + i) (c + i + p) c' (c' + i') (c' + i' + p') h k l,
)
