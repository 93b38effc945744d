-- ===== src/DegreeAudit/Evaluators/Once.antt =====
-- context.py `credit_summary`, against the selection of engine.py `select_distinct_candidates`.
use smart_academic_planning.Prelude.{
  ◌+◌, Bool, true, false, List, [], ◌∷◌, ◌≡◌, ◌∙◌, All, sum_if, arith,
}
use smart_academic_planning.DegreeAudit.Records.{Uuid}
use smart_academic_planning.DegreeAudit.Result.{SourceKey}
use smart_academic_planning.DegreeAudit.Allocator.{is_available}
use smart_academic_planning.DegreeAudit.Candidates.{CourseCandidate}
use smart_academic_planning.DegreeAudit.Context.{
  CreditTotals, no_credits, skipped, note_course, add_credits, sum_credits,
}
use smart_academic_planning.DegreeAudit.Context.Eligible.{OneState, HasCourse, IsCandidate}
use smart_academic_planning.DegreeAudit.Evaluators.Selection.{passed_over, select_distinct}

-- The credits of the selected candidates in each state.
abbrev pub totals_of : CreditTotals → List CourseCandidate → CreditTotals
totals_of t cs = record {
  completed = t.completed + sum_if (λ (c : CourseCandidate). c.is_completed) (λ c. c.credits) cs;
  in_progress =
      t.in_progress + sum_if (λ (c : CourseCandidate). c.is_in_progress) (λ c. c.credits) cs;
  planned = t.planned + sum_if (λ (c : CourseCandidate). c.is_planned) (λ c. c.credits) cs;
}

-- With overlap allowed every source is available, and the two loops skip the same candidates.
same_skip :
    (used : List SourceKey) (seen : List Uuid) (c : CourseCandidate)
    → HasCourse c
    → passed_over used true seen c ≡ skipped seen c
unfolding passed_over skipped is_available
same_skip used seen c (id, e) = ground arith

totals-cons :
    (t : CreditTotals) (c : CourseCandidate) (cs : List CourseCandidate)
    → OneState c
    → totals_of (add_credits t c) cs ≡ totals_of t (c ∷ cs)
unfolding add_credits
totals-cons t c cs one = ground arith

sum_credits-totals :
    (used : List SourceKey) (cs : List CourseCandidate) (seen : List Uuid) (t : CreditTotals)
    → All IsCandidate cs
    → sum_credits seen t cs ≡ totals_of t (select_distinct used true seen cs)
unfolding sum_credits select_distinct
sum_credits-totals used [] seen t h = ground arith
sum_credits-totals used (c ∷ cs) seen t h =
    go (skipped seen c) (passed_over used true seen c) (same_skip used seen c h.0.0)
      (λ seen t. sum_credits-totals used cs seen t h.1)
  where
    go :
        (a b : Bool)
        → b ≡ a
        → ((seen : List Uuid) (t : CreditTotals)
            → sum_credits seen t cs ≡ totals_of t (select_distinct used true seen cs))
        → (elim a as (λ _. CreditTotals) [
          | true ↦ sum_credits seen t cs
          | false ↦ sum_credits (note_course c.course_id seen) (add_credits t c) cs
        ])
          ≡ totals_of t (elim b as (λ _. List CourseCandidate) [
            | true ↦ select_distinct used true seen cs
            | false ↦ c ∷ select_distinct used true (note_course c.course_id seen) cs
          ])
    go true true e rec = rec seen t
    go true false e rec = absurd (ground arith)
    go false true e rec = absurd (ground arith)
    go false false e rec =
        rec (note_course c.course_id seen) (add_credits t c) ∙ totals-cons t c _ h.0.1

-- Over candidates that each have a course and exactly one state, the summary has in each state the
-- sum of the credits of the candidates that a pool selects of the same list where every source is
-- available.
pub sum_credits-select_distinct :
    (used : List SourceKey) (cs : List CourseCandidate)
    → All IsCandidate cs
    → sum_credits [] no_credits cs ≡ totals_of no_credits (select_distinct used true [] cs)
sum_credits-select_distinct used cs h = sum_credits-totals used cs [] no_credits h
