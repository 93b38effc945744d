-- ===== src/Eligibility/Engine.antt =====
-- engine.py: `_build_context`, `_load_rules` and `evaluate`.
pub mod Request
pub mod Summary
pub mod Scope
pub mod Returns
pub mod Current
pub mod Verdict
unfoldable pub use Request.*
unfoldable pub use Summary.*
use smart_academic_planning.Prelude.{
  ℕ, zero, suc, Bool, true, false, not, ◌&&◌, ◌||◌, Option, none, some, List, [], ◌∷◌, ◌++◌, Dict,
  lookup, ◌==◌, if◌then◌else◌, filter_by, any_by, flat_map_by, map,
}
use smart_academic_planning.DegreeAudit.Records.{Uuid, AuditWarningSeverity, error, warning, info}
use smart_academic_planning.DegreeAudit.Grades.{GradePolicy}
use smart_academic_planning.Eligibility.Records.{
  EligibilityMode, EligibilityOverallResult, EligibilityRuleResult, CourseRule,
  CourseRuleExpression, Section, CourseStateSnapshot, satisfied, conditionally_satisfied,
  not_satisfied,
}
use smart_academic_planning.Eligibility.Result.{
  ReasonCode, EligibilityWarningCode, EligibilityRequestContext, ExpressionEvaluationResult,
  RuleEvaluationResult, EligibilityReason, CorequisiteSummary, RegistrationAvailability,
  EligibilityWarningResult, EligibilityResult, corequisite_completed,
  corequisite_transfer_satisfied, corequisite_in_progress, corequisite_concurrent_plan,
  corequisite_must_enroll, real_restriction_rules_missing, no_stored_restrictions,
  rule_tree_missing, rule_requires_manual_confirmation, imported_course_state_advisory,
  mock_eligibility_estimate,
}
use smart_academic_planning.Eligibility.Checked.{Checked, ok, ◌>>=◌, each}
use smart_academic_planning.Eligibility.Evidence.{EligibilityTables, active_course_state_snapshot}
use smart_academic_planning.Eligibility.Rollup.{rule_result_eq, aggregate_overall}
use smart_academic_planning.Eligibility.Tree.{
  TreeResult, entries, load_expressions, roots_from, children_by_parent, evaluate_expression_tree,
}

-- What one turn of the loop over the rules appends.
pub record RuleOutcome : Type 0 where
  pub rule_result : RuleEvaluationResult
  pub rule_warnings : List EligibilityWarningResult

unfoldable pub missing_tree : ℕ → CourseRule → RuleOutcome
missing_tree display_order rule = record {
  rule_result = record {
    course_rule_id = rule.id;
    rule_type = rule.rule_type;
    result = EligibilityRuleResult.manual_review_required;
    display_order = display_order;
    expressions = [];
  };
  rule_warnings = advisory rule_tree_missing error ∷ [];
}

unfoldable pub evaluated_rule : ℕ → CourseRule → TreeResult → RuleOutcome
evaluated_rule display_order rule tree = record {
  rule_result = record {
    course_rule_id = rule.id;
    rule_type = rule.rule_type;
    result = tree.own.result;
    display_order = display_order;
    expressions = entries tree;
  };
  rule_warnings =
      if rule.requires_manual_confirmation
      then advisory rule_requires_manual_confirmation warning ∷ []
      else [];
}

abbrev pub is_active_state : Option CourseStateSnapshot → Bool
is_active_state none = false
is_active_state (some _) = true

-- The result where there are no rules.
unfoldable pub without_rules :
    EligibilityRequestContext → Option CourseStateSnapshot → EligibilityResult
without_rules context snapshot =
    let real = is_active_state snapshot in
    let overall =
      if real
      then EligibilityOverallResult.manual_review_required
      else EligibilityOverallResult.eligible in
    record {
      overall_result = overall;
      academic_eligibility_result = overall;
      rule_evaluations = [];
      expression_evaluations = [];
      blocking_reasons = [];
      conditional_reasons = [];
      permissions_required = [];
      manual_review_reasons = [];
      corequisites_to_add = [];
      corequisite_summary = none;
      registration_availability = registration_availability context.section;
      warnings =
          advisory (if real then real_restriction_rules_missing else no_stored_restrictions) warning
          ∷ [];
    }

abbrev pub rule_result_of : RuleOutcome → RuleEvaluationResult
rule_result_of o = o.rule_result

abbrev pub must_add : Option CorequisiteSummary → List Uuid
must_add none = []
must_add (some s) = s.must_enroll_concurrently

-- What follows the loop over the rules.
unfoldable pub summarised :
    EligibilityRequestContext → Option CourseStateSnapshot → List RuleOutcome → EligibilityResult
summarised context snapshot outcomes =
    let rule_results = map rule_result_of outcomes in
    let expressions = flat_map_by (λ (r : RuleEvaluationResult). r.expressions) rule_results in
    let overall = aggregate_overall (map (λ (r : RuleEvaluationResult). r.result) rule_results) in
    let summary = corequisite_summary expressions in
    record {
      overall_result = overall;
      academic_eligibility_result = overall;
      rule_evaluations = rule_results;
      expression_evaluations = expressions;
      blocking_reasons = reasons_from_expressions not_satisfied expressions;
      conditional_reasons = reasons_from_expressions conditionally_satisfied expressions;
      permissions_required =
          reasons_from_expressions EligibilityRuleResult.permission_required expressions;
      manual_review_reasons =
          reasons_from_expressions EligibilityRuleResult.manual_review_required expressions;
      corequisites_to_add = must_add summary;
      corequisite_summary = summary;
      registration_availability = registration_availability context.section;
      warnings =
          flat_map_by (λ (o : RuleOutcome). o.rule_warnings) outcomes
          ++ advisory
              (if is_active_state snapshot
                then imported_course_state_advisory
                else mock_eligibility_estimate)
              info
            ∷ [];
    }

module _ (db : EligibilityTables) (policy : GradePolicy) (depth : ℕ) where
  -- One turn of the loop over the rules.
  unfoldable pub evaluate_rule :
      EligibilityRequestContext
      → Dict CourseRuleExpression
      → Dict (List CourseRuleExpression)
      → ℕ
      → CourseRule
      → Checked RuleOutcome
  evaluate_rule context roots children display_order rule = elim (lookup rule.id roots) [
    | none ↦ ok (missing_tree display_order rule)
    | some root ↦ do
      tree ← evaluate_expression_tree db policy depth rule.rule_type context children root
      ok (evaluated_rule display_order rule tree)
  ]

  -- The loop, from the display order on.
  unfoldable pub evaluate_rules_from :
      EligibilityRequestContext
      → Dict CourseRuleExpression
      → Dict (List CourseRuleExpression)
      → ℕ
      → List CourseRule
      → Checked (List RuleOutcome)
  evaluate_rules_from context roots children display_order [] = ok []
  evaluate_rules_from context roots children display_order (rule ∷ rules) = do
    outcome ← evaluate_rule context roots children display_order rule
    outcomes ← evaluate_rules_from context roots children (suc display_order) rules
    ok (outcome ∷ outcomes)

  unfoldable pub evaluate_rules :
      EligibilityRequestContext → List CourseRule → Checked EligibilityResult
  evaluate_rules context [] =
      ok (without_rules context (active_course_state_snapshot db context.student.id))
  evaluate_rules context (rule ∷ rules) =
      let expressions =
        load_expressions db.expressions (map (λ (r : CourseRule). r.id) (rule ∷ rules)) in
      do
        outcomes ←
            evaluate_rules_from context (roots_from [] expressions) (children_by_parent expressions)
              0 (rule ∷ rules)
        ok (summarised context (active_course_state_snapshot db context.student.id) outcomes)

  -- `evaluate`, over `evaluate_reviewed_prerequisites`.
  unfoldable pub evaluate :
      (EligibilityRequestContext → Option EligibilityResult)
      → EligibilityRequest
      → Checked EligibilityResult
  evaluate reviewed_result request = do
    context ← build_context db request
    elim (reviewed_result context) [
      | some result ↦ ok result
      | none ↦ evaluate_rules context (load_rules db context)
    ]
