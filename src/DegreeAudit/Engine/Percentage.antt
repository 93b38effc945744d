-- ===== src/DegreeAudit/Engine/Percentage.antt =====
-- engine.py: `quantize_percentage` and the completion percentage of `evaluate`.
use smart_academic_planning.Prelude.{ℕ, ◌+◌, ◌*◌, ◌<◌, ◌≤◌, ◌≡◌, arith}
use native.Mathlib.Nat.{mul-le-mul_left}
use native.Mathlib.Decide.{dec_lt}
use smart_academic_planning.DegreeAudit.Quantize.{round_half_even}
use smart_academic_planning.DegreeAudit.Quantize.Nearest.{
  round_half_even_nearest, round_half_even_mono,
}
use smart_academic_planning.DegreeAudit.Engine.Report.{completion_percentage}

full : (done total : ℕ) → 0 < total → total ≤ done → 10000 ≤ round_half_even (done * 10000) total
full done total pos enough = elim (dec_lt (round_half_even (done * 10000) total) 10000) [
  | no le ↦ omega arith
  | yes lt ↦
      let near = round_half_even_nearest (done * 10000) total pos in
      let v = round_half_even (done * 10000) total in
      let low : total * v ≤ total * 9999 = mul-le-mul_left total (omega arith) in
      absurd (omega arith)
]

-- The percentage is 100.00 once the credits reach a positive total.
pub completion_percentage_full :
    (done total : ℕ) → 0 < total → total ≤ done → completion_percentage done total ≡ 10000
unfolding completion_percentage
completion_percentage_full done total pos enough =
    let near = round_half_even_nearest (done * 10000) total pos in
    let large = full done total pos enough in ground arith

-- More credits against the same total never lower the percentage, which is at most 100.00.
pub completion_percentage_mono :
    (done more total : ℕ)
    → done ≤ more
    → (completion_percentage done total ≤ completion_percentage more total)
      × (completion_percentage more total ≤ 10000)
unfolding completion_percentage
completion_percentage_mono done more total h = elim (dec_lt 0 total) [
  | yes pos ↦
      let le = round_half_even_mono (done * 10000) (more * 10000) total pos (omega arith) in
      (ground arith, omega arith)
  | no none_asked ↦ (ground arith, omega arith)
]

nothing_asked : (done total : ℕ) → total ≡ 0 → completion_percentage done total ≡ 0
unfolding completion_percentage
nothing_asked done total h = ground arith

-- Below the total the rounded ratio is at most 100.00.
not_full : (done total : ℕ) → done < total → round_half_even (done * 10000) total ≤ 10000
not_full done total h = elim (dec_lt 10000 (round_half_even (done * 10000) total)) [
  | no le ↦ omega arith
  | yes lt ↦
      let near = round_half_even_nearest (done * 10000) total (omega arith) in
      let v = round_half_even (done * 10000) total in
      let low : total * 10001 ≤ total * v = mul-le-mul_left total (omega arith) in
      absurd (omega arith)
]

below-eq :
    (done total : ℕ)
    → done < total
    → completion_percentage done total ≡ round_half_even (done * 10000) total
unfolding completion_percentage
below-eq done total h = let le = not_full done total h in ground arith

below :
    (done total : ℕ)
    → done < total
    → (2 * (completion_percentage done total * total) ≤ 2 * (done * 10000) + total)
      × (2 * (done * 10000) ≤ 2 * (completion_percentage done total * total) + total)
below done total h =
    let near = round_half_even_nearest (done * 10000) total (omega arith) in
    rw (below-eq done total h) (omega arith, omega arith)

-- The percentage in hundredths: without a positive total it is zero, from the total on it is 100.00,
-- and below the total it is the exact ratio, rounded to no more than half a hundredth away.
pub completion_percentage_meaning :
    (done total : ℕ)
    → (total ≡ 0 → completion_percentage done total ≡ 0)
      × (0 < total → total ≤ done → completion_percentage done total ≡ 10000)
      × (done < total
          → (2 * (completion_percentage done total * total) ≤ 2 * (done * 10000) + total)
            × (2 * (done * 10000) ≤ 2 * (completion_percentage done total * total) + total))
completion_percentage_meaning done total =
    (nothing_asked done total, completion_percentage_full done total, below done total)
