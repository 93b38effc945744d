-- ===== src/Eligibility/Store/Checks.antt =====
-- engine.py: `create_check` on what `evaluate` returns.
use smart_academic_planning.Prelude.{ℕ, ◌≤◌, Option, some, List, [], ◌∷◌, map, length, ◌≡◌, refl}
use smart_academic_planning.DegreeAudit.Records.{Uuid}
use smart_academic_planning.DegreeAudit.Grades.{GradePolicy}
use smart_academic_planning.Eligibility.Records.{CourseRule, CourseStateSnapshot}
use smart_academic_planning.Eligibility.Result.{EligibilityRequestContext, EligibilityResult}
use smart_academic_planning.Eligibility.Checked.{Checked, ok, raise, ◌>>=◌, AllOk, Ok-Returns}
use smart_academic_planning.Eligibility.Evidence.{EligibilityTables, active_course_state_snapshot}
use smart_academic_planning.Eligibility.Tree.{load_expressions, roots_from, children_by_parent}
use smart_academic_planning.Eligibility.Tree.Depth.{HasDistinctIds}
use smart_academic_planning.Eligibility.Engine.{
  RuleOutcome, without_rules, summarised, evaluate_rules_from, evaluate_rules,
}
use smart_academic_planning.Eligibility.Engine.Returns.{evaluate_rules-IsOk}
use smart_academic_planning.Eligibility.Store.{StoredCheck, create_check}
use smart_academic_planning.Eligibility.Store.Keys.{IsFlat, IsLinked, create_check-IsLinked}

summarised-IsFlat :
    (context : EligibilityRequestContext) (snapshot : Option CourseStateSnapshot)
    (m : Checked (List RuleOutcome))
    → AllOk IsFlat (m >>= λ outcomes. ok (summarised context snapshot outcomes))
unfolding summarised
summarised-IsFlat context snapshot (ok outcomes) = refl
summarised-IsFlat context snapshot (raise e) = tt

module _ (db : EligibilityTables) (policy : GradePolicy) (depth : ℕ)
    (context : EligibilityRequestContext) where
  evaluate_rules-IsFlat :
      (rules : List CourseRule) → AllOk IsFlat (evaluate_rules db policy depth context rules)
  unfolding evaluate_rules without_rules
  evaluate_rules-IsFlat [] = refl
  evaluate_rules-IsFlat (rule ∷ rules) =
      let es = load_expressions db.expressions (map (λ (r : CourseRule). r.id) (rule ∷ rules)) in
      summarised-IsFlat context (active_course_state_snapshot db context.student.id) (
        evaluate_rules_from db policy depth context (roots_from [] es) (children_by_parent es) 0
          (rule ∷ rules))

  -- Where no two expressions have one id and the stack is as deep as there are expressions, the rules
  -- are evaluated to a result that is stored without a missing key, with one row for each evaluated
  -- expression, and each of these rows refers to the stored row of a rule.
  pub create_check-evaluate_rules :
      (fresh : ℕ → Uuid) (rules : List CourseRule)
      → HasDistinctIds db.expressions
      → length db.expressions ≤ depth
      → (r : EligibilityResult) × (evaluate_rules db policy depth context rules ≡ ok r)
        × (check : StoredCheck) × (create_check fresh r ≡ some check)
        × IsLinked r check
  create_check-evaluate_rules fresh rules distinct deep =
      let returned =
        Ok-Returns IsFlat (evaluate_rules db policy depth context rules)
          (evaluate_rules-IsOk db policy depth context rules distinct deep)
          (evaluate_rules-IsFlat rules) in
      let stored = create_check-IsLinked fresh returned.0 returned.2 in
      (returned.0, returned.1, stored.0, stored.1, stored.2)
