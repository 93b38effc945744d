-- ===== src/DegreeAudit/Quantize.antt =====
-- engine.py: `quantize_credits` and the rounding of `Decimal.quantize`, half to even.
pub mod Nearest
use smart_academic_planning.Prelude.{ℕ, ◌+◌, ◌*◌, ◌/◌, ◌%◌, ltb, ◌==◌, if◌then◌else◌}
use smart_academic_planning.DegreeAudit.Records.{Credits}

-- The amount `Decimal("0.1")`: credits are counted in units of 10⁻²⁰.
abbrev pub tenth : Credits
tenth = 10000000000000000000

-- n / d rounded to the nearest number, a tie to the even one, as `Decimal.quantize` rounds.
unfoldable pub round_half_even : ℕ → ℕ → ℕ
round_half_even n d =
    let q : ℕ = n / d in
    let r : ℕ = n % d in
    if ltb (r + r) d then q else if ltb d (r + r) then q + 1 else if q % 2 == 0 then q else q + 1

unfoldable pub quantize_credits : Credits → Credits
quantize_credits c = tenth * round_half_even c tenth
