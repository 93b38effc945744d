-- ===== src/DegreeAudit/Grades.antt =====
-- apps/api/app/services/degree_audit/grade_policy.py: `GradePolicy`. The rank of a grade is its
-- index in the policy's order, the best grade first.
pub mod Order
use smart_academic_planning.Prelude.{
  ℕ, zero, suc, ◌+◌, Bool, true, false, not, ◌||◌, Option, none, some, List, [], ◌∷◌, Text, codes,
  text_eq, strip, upper, leb, if◌then◌else◌, length, arith,
}
use smart_academic_planning.DegreeAudit.Result.{
  WarningCode, unknown_grade, incomplete_grade, pass_fail_minimum_grade_review,
  unknown_minimum_grade,
}

pub record GradeDecision : Type 0 where
  pub is_satisfied : Bool
  pub warning_code : Option WarningCode

pub record GradePolicy : Type 0 where
  pub grade_order : List Text

-- The order that `GradePolicy()` takes.
abbrev pub default_grade_order : List Text
default_grade_order =
    codes "A"
    ∷ codes "A-"
    ∷ codes "B+"
    ∷ codes "B"
    ∷ codes "B-"
    ∷ codes "C+"
    ∷ codes "C"
    ∷ codes "C-"
    ∷ codes "D+"
    ∷ codes "D"
    ∷ codes "D-"
    ∷ codes "F"
    ∷ []

-- `grade_order or (...)`: an empty order is falsy.
unfoldable pub init : List Text → GradePolicy
init [] = record { grade_order = default_grade_order }
init (g ∷ order) = record { grade_order = g ∷ order }

-- `self._rank.get(grade)`, where a later entry of the comprehension overwrites an earlier one.
abbrev pub rank_from : ℕ → List Text → Text → Option ℕ
rank_from i [] grade = none
rank_from i (g ∷ order) grade = elim (rank_from (suc i) order grade) [
  | some j ↦ some j
  | none ↦ if text_eq g grade then some i else none
]

abbrev pub rank : GradePolicy → Text → Option ℕ
rank policy grade = rank_from 0 policy.grade_order grade

-- `value.strip().upper() if value else None`: the empty text is falsy.
unfoldable pub normalized : Option Text → Option Text
normalized none = none
normalized (some []) = none
normalized (some (c ∷ s)) = some (upper (strip (c ∷ s)))

abbrev pub one_of : List Text → Text → Bool
one_of [] s = false
one_of (t ∷ ts) s = text_eq t s || one_of ts s

abbrev pub no_credit_grades : List Text
no_credit_grades = codes "W" ∷ codes "AU" ∷ codes "NC" ∷ []

abbrev pub pass_grades : List Text
pass_grades = codes "P" ∷ codes "S" ∷ codes "CR" ∷ []

abbrev plain : Bool → GradeDecision
plain b = record { is_satisfied = b; warning_code = none }

abbrev refused : WarningCode → GradeDecision
refused code = record { is_satisfied = false; warning_code = some code }

-- The last two tests: the grade has a rank, and the minimum is looked up.
unfoldable pub ranked_decision : GradePolicy → Text → ℕ → Option Text → GradeDecision
ranked_decision policy grade r none = plain (not (text_eq grade (codes "F")))
ranked_decision policy grade r (some minimum) = elim (rank policy minimum) [
  | none ↦ refused unknown_minimum_grade
  | some m ↦ plain (leb r m)
]

unfoldable pub normalized_decision : GradePolicy → Option Text → Option Text → GradeDecision
normalized_decision policy none none = plain true
normalized_decision policy none (some minimum) = refused unknown_grade
normalized_decision policy (some grade) minimum =
    if one_of no_credit_grades grade
    then plain false
    else if text_eq grade (codes "I")
    then refused incomplete_grade
    else if one_of pass_grades grade
    then elim minimum [ none ↦ plain true | some _ ↦ refused pass_fail_minimum_grade_review ]
    else elim (rank policy grade) [
      | none ↦ refused unknown_grade
      | some r ↦ ranked_decision policy grade r minimum
    ]

unfoldable pub satisfies_minimum : GradePolicy → Option Text → Option Text → GradeDecision
satisfies_minimum policy grade minimum_grade =
    normalized_decision policy (normalized grade) (normalized minimum_grade)

-- `best_grade_key`: the dictionary has as many entries as it has distinct grades.
unfoldable pub distinct : List Text → List Text
distinct [] = []
distinct (g ∷ order) = if one_of order g then distinct order else g ∷ distinct order

unfoldable pub best_grade_key : GradePolicy → Option Text → ℕ
best_grade_key policy grade =
    let text : Text = elim (normalized grade) [ none ↦ [] | some t ↦ t ] in
    elim (rank policy text) [ some r ↦ r | none ↦ length (distinct policy.grade_order) + 1 ]
