-- ===== src/DegreeAudit/Grades/Order.antt =====
-- grade_policy.py: `satisfies_minimum` for different minimums and spellings of a grade.
use smart_academic_planning.Prelude.{
  ℕ, ◌≤◌, true, Option, none, some, [], ◌∷◌, Text, strip, strip_left, upper, upper_char, is_space,
  ◌≡◌, refl, ap, ◌∙◌, inl, inr, Bool-cases, Option-cases, arith,
}
use mathlib.Core.Path.{ap₂}
use mathlib.Core.List.{reverse, reverse_aux}
use smart_academic_planning.DegreeAudit.Grades.{
  GradePolicy, rank, normalized, ranked_decision, normalized_decision, satisfies_minimum,
}

ranked-no_warning :
    (policy : GradePolicy) (g : Text) (r : ℕ) (m : Option Text)
    → (ranked_decision policy g r m).is_satisfied ≡ true
    → (ranked_decision policy g r m).warning_code ≡ none
unfolding ranked_decision
ranked-no_warning policy g r none h = refl
ranked-no_warning policy g r (some m) h = ground arith

normalized-no_warning :
    (policy : GradePolicy) (g m : Option Text)
    → (normalized_decision policy g m).is_satisfied ≡ true
    → (normalized_decision policy g m).warning_code ≡ none
unfolding normalized_decision
normalized-no_warning policy none none h = refl
normalized-no_warning policy none (some m) h = cc
normalized-no_warning policy (some g) none h = elim (Option-cases (rank policy g)) [
  | inl e ↦ ground arith
  | inr (r, e) ↦ ground (arith, ranked-no_warning policy g r none)
]
normalized-no_warning policy (some g) (some m) h = elim (Option-cases (rank policy g)) [
  | inl e ↦ ground arith
  | inr (r, e) ↦ ground (arith, ranked-no_warning policy g r (some m))
]

-- A grade that satisfies the minimum raises no warning, on any branch of the policy.
pub satisfies_minimum-no_warning :
    (policy : GradePolicy) (grade minimum : Option Text)
    → (satisfies_minimum policy grade minimum).is_satisfied ≡ true
    → (satisfies_minimum policy grade minimum).warning_code ≡ none
unfolding satisfies_minimum
satisfies_minimum-no_warning policy grade minimum =
    normalized-no_warning policy (normalized grade) (normalized minimum)

normalized_mono :
    (policy : GradePolicy) (g : Option Text) (strict lax : Text) (a b : ℕ)
    → rank policy strict ≡ some a
    → rank policy lax ≡ some b
    → a ≤ b
    → (normalized_decision policy g (some strict)).is_satisfied ≡ true
    → (normalized_decision policy g (some lax)).is_satisfied ≡ true
unfolding normalized_decision ranked_decision
normalized_mono policy none strict lax a b ea eb h ok = cc
normalized_mono policy (some g) strict lax a b ea eb h ok = ground arith

-- A grade that satisfies a minimum satisfies every minimum that the policy ranks no higher.
pub satisfies_minimum_mono :
    (policy : GradePolicy) (grade strict lax : Option Text) (s l : Text) (a b : ℕ)
    → normalized strict ≡ some s
    → normalized lax ≡ some l
    → rank policy s ≡ some a
    → rank policy l ≡ some b
    → a ≤ b
    → (satisfies_minimum policy grade strict).is_satisfied ≡ true
    → (satisfies_minimum policy grade lax).is_satisfied ≡ true
unfolding satisfies_minimum
satisfies_minimum_mono policy grade strict lax s l a b es el ea eb h ok =
    rw el (normalized_mono policy (normalized grade) s l a b ea eb h (rw es at ok))

upper_char-upper_char : (c : ℕ) → upper_char (upper_char c) ≡ upper_char c
upper_char-upper_char c = ground arith

is_space-upper_char : (c : ℕ) → is_space (upper_char c) ≡ is_space c
is_space-upper_char c = ground arith

upper-upper : (s : Text) → upper (upper s) ≡ upper s
unfolding upper
upper-upper [] = refl
upper-upper (c ∷ s) = ground (arith, upper_char-upper_char c, upper-upper s)

strip_left-upper : (s : Text) → strip_left (upper s) ≡ upper (strip_left s)
unfolding upper
strip_left-upper [] = refl
strip_left-upper (c ∷ s) = elim (Bool-cases (is_space c)) [
  | inl e ↦ ground (arith, is_space-upper_char c, strip_left-upper s)
  | inr e ↦ ground (arith, is_space-upper_char c)
]

reverse_aux-upper : (s r : Text) → reverse_aux (upper s) (upper r) ≡ upper (reverse_aux s r)
unfolding upper
reverse_aux-upper [] r = refl
reverse_aux-upper (c ∷ s) r = reverse_aux-upper s (c ∷ r)

reverse-upper : (s : Text) → reverse (upper s) ≡ upper (reverse s)
unfolding upper
reverse-upper s = reverse_aux-upper s []

strip-upper : (s : Text) → strip (upper s) ≡ upper (strip s)
unfolding strip
strip-upper s =
    ap (λ t. reverse (strip_left (reverse t))) (strip_left-upper s)
    ∙ ap (λ t. reverse (strip_left t)) (reverse-upper (strip_left s))
    ∙ ap reverse (strip_left-upper (reverse (strip_left s)))
    ∙ reverse-upper (strip_left (reverse (strip_left s)))

normalized-upper : (s : Text) → normalized (some (upper s)) ≡ normalized (some s)
unfolding normalized
normalized-upper [] = unfold upper in refl
normalized-upper (c ∷ s) =
    unfold upper in ap some (ap upper (strip-upper (c ∷ s)) ∙ upper-upper (strip (c ∷ s)))

-- The decision does not depend on the letter case of the grade or of the minimum.
pub satisfies_minimum-upper :
    (policy : GradePolicy) (g m : Text)
    → satisfies_minimum policy (some (upper g)) (some (upper m))
      ≡ satisfies_minimum policy (some g) (some m)
unfolding satisfies_minimum
satisfies_minimum-upper policy g m =
    ap₂ (normalized_decision policy) (normalized-upper g) (normalized-upper m)
