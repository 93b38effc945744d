-- ===== src/DegreeAudit/Quantize/Nearest.antt =====
-- The distance of a rounded amount from the amount, and the order of rounded amounts.
use smart_academic_planning.Prelude.{
  ℕ, ◌+◌, ◌-◌, ◌*◌, ◌/◌, ◌%◌, ◌<◌, ◌≤◌, ltb, ◌==◌, if◌then◌else◌, ◌≡◌, ◌⊎◌, ◌↔◌, sym, subst, inl,
  inr, arith,
}
use native.Mathlib.Nat.{div-add-mod, mod-lt, mul-le-mul_left}
use native.Mathlib.Decide.{dec_lt}
use smart_academic_planning.DegreeAudit.Records.{Credits}
use smart_academic_planning.DegreeAudit.Quantize.{tenth, round_half_even, quantize_credits}

-- The three cases of the rounding, with the quotient q and the remainder r.
abbrev Rounds : ℕ → ℕ → ℕ → ℕ → Type 0
Rounds q r d v =
    ((r + r < d) × (v ≡ q))
    ⊎ (((d < r + r) × (v ≡ q + 1)) ⊎ ((r + r ≡ d) × (v % 2 ≡ 0) × ((v ≡ q) ⊎ (v ≡ q + 1))))

rounds :
    (q r d : ℕ)
    → Rounds q r d (
        if ltb (r + r) d
        then q
        else if ltb d (r + r)
        then q + 1
        else if q % 2 == 0
        then q
        else q + 1)
rounds q r d = ground arith

round_half_even-Rounds : (n d : ℕ) → Rounds (n / d) (n % d) d (round_half_even n d)
unfolding round_half_even
round_half_even-Rounds n d = rounds (n / d) (n % d) d

-- Twice the distance of the value from the quotient is less than the divisor, or it is the divisor
-- and the value is even.
abbrev IsNearest : ℕ → ℕ → ℕ → Type 0
IsNearest n d v =
    ((2 * n < 2 * (d * v) + d) × (2 * (d * v) < 2 * n + d))
    ⊎ (((2 * n ≡ 2 * (d * v) + d) ⊎ (2 * (d * v) ≡ 2 * n + d)) × (v % 2 ≡ 0))

IsNearest-tie :
    (q r d v : ℕ) → r + r ≡ d → v % 2 ≡ 0 → (v ≡ q) ⊎ (v ≡ q + 1) → IsNearest (d * q + r) d v
IsNearest-tie q r d v h even (inl e) = rw e (inr (inl (omega arith), rw e at even))
IsNearest-tie q r d v h even (inr e) = rw e (inr (inr (omega arith), rw e at even))

Rounds-IsNearest : (q r d v : ℕ) → r < d → Rounds q r d v → IsNearest (d * q + r) d v
Rounds-IsNearest q r d v low (inl (h, e)) = rw e (inl (omega arith, omega arith))
Rounds-IsNearest q r d v low (inr (inl (h, e))) = rw e (inl (omega arith, omega arith))
Rounds-IsNearest q r d v low (inr (inr (h, even, e))) = IsNearest-tie q r d v h even e

-- For a positive divisor, the rounded quotient is nearer than half to the quotient, or it is half away
-- from it and even.
pub round_half_even_nearest :
    (n d : ℕ)
    → 0 < d
    → ((2 * n < 2 * (d * round_half_even n d) + d) × (2 * (d * round_half_even n d) < 2 * n + d))
      ⊎ (((2 * n ≡ 2 * (d * round_half_even n d) + d) ⊎ (2 * (d * round_half_even n d) ≡ 2 * n + d))
          × (round_half_even n d % 2 ≡ 0))
round_half_even_nearest n d pos =
    subst (λ m. IsNearest m d (round_half_even n d)) (div-add-mod n d)
      (Rounds-IsNearest (n / d) (n % d) d (round_half_even n d) (mod-lt n pos)
        (round_half_even-Rounds n d))

-- A larger value that is rounded to less would be an equal value.
crossing : (n m d : ℕ) → 0 < d → n ≤ m → round_half_even m d < round_half_even n d → ⊥
crossing n m d pos h lt =
    let below = round_half_even_nearest n d pos in
    let above = round_half_even_nearest m d pos in
    let step : d * (round_half_even m d + 1) ≤ d * round_half_even n d =
      mul-le-mul_left d (omega arith) in
    let same : n ≡ m = omega arith in
    absurd
      (subst (λ k. round_half_even m d < round_half_even k d → ⊥) (sym same) (λ l. omega arith) lt)

-- Against the same positive divisor, a larger number rounds to no less.
pub round_half_even_mono : (n m d : ℕ) → 0 < d → n ≤ m → round_half_even n d ≤ round_half_even m d
round_half_even_mono n m d pos h = elim (dec_lt (round_half_even m d) (round_half_even n d)) [
  | no le ↦ omega arith
  | yes lt ↦ absurd (crossing n m d pos h lt)
]

-- The amounts are at most a tenth of a credit apart.
abbrev pub IsWithinTenth : Credits → Credits → Type 0
IsWithinTenth a b = (a ≤ b + tenth) × (b ≤ a + tenth)

pub quantize_credits_near :
    (c : Credits)
    → (2 * c ≤ 2 * quantize_credits c + tenth) × (2 * quantize_credits c ≤ 2 * c + tenth)
unfolding quantize_credits
quantize_credits_near c = elim (round_half_even_nearest c tenth (omega arith)) [
  | inl near ↦ (omega arith, omega arith)
  | inr (inl e, even) ↦ (omega arith, omega arith)
  | inr (inr e, even) ↦ (omega arith, omega arith)
]

pub quantize_credits_mono : (a b : Credits) → a ≤ b → quantize_credits a ≤ quantize_credits b
unfolding quantize_credits
quantize_credits_mono a b h = let le = round_half_even_mono a b tenth (omega arith) h in omega arith

pub quantize_credits_whole : (c : Credits) → quantize_credits c % tenth ≡ 0
unfolding quantize_credits
quantize_credits_whole c = omega arith

-- What is rounded last differs by at most a tenth from the difference of what is rounded first.
pub quantize_credits-remaining :
    (required satisfied : Credits)
    → IsWithinTenth
        (quantize_credits (required - satisfied))
        (quantize_credits required - quantize_credits satisfied)
unfolding quantize_credits
quantize_credits-remaining required satisfied =
    let near_left = quantize_credits_near (required - satisfied) in
    let near_required = quantize_credits_near required in
    let near_satisfied = quantize_credits_near satisfied in
    elim (dec_lt required satisfied) [
      | yes lt ↦
          let le = quantize_credits_mono required satisfied (omega arith) in
          (omega arith, omega arith)
      | no ge ↦ (omega arith, omega arith)
    ]

-- An amount of no more than half a tenth is rounded to nothing, and no other amount is.
pub quantize_credits-eq-zero : (c : Credits) → (quantize_credits c ≡ 0) ↔ (2 * c ≤ tenth)
unfolding quantize_credits
quantize_credits-eq-zero c = elim (round_half_even_nearest c tenth (omega arith)) [
  | inl near ↦ (λ h. omega (arith, h), λ h. omega (arith, h))
  | inr (inl e, even) ↦ (λ h. omega (arith, h), λ h. omega (arith, h))
  | inr (inr e, even) ↦ (λ h. omega (arith, h), λ h. omega (arith, h))
]
