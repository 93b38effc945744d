-- ===== src/Eligibility/Engine/Summary.antt =====
-- engine.py: `_reasons_from_expressions`, `_corequisite_summary` and `_registration_availability`.
use smart_academic_planning.Prelude.{
  Bool, true, false, Option, none, some, List, [], ◌∷◌, ◌==◌, if◌then◌else◌, filter_by, any_by,
  flat_map_by, map,
}
use smart_academic_planning.DegreeAudit.Records.{Uuid, AuditWarningSeverity}
use smart_academic_planning.Eligibility.Records.{EligibilityRuleResult, Section}
use smart_academic_planning.Eligibility.Result.{
  ReasonCode, EligibilityWarningCode, ExpressionEvaluationResult, EligibilityReason,
  CorequisiteSummary, RegistrationAvailability, EligibilityWarningResult, corequisite_completed,
  corequisite_transfer_satisfied, corequisite_in_progress, corequisite_concurrent_plan,
  corequisite_must_enroll,
}
use smart_academic_planning.Eligibility.Rollup.{rule_result_eq}

abbrev pub advisory : EligibilityWarningCode → AuditWarningSeverity → EligibilityWarningResult
advisory code severity = record {
  warning_code = code;
  severity = severity;
  requires_advisor_confirmation = true;
}

abbrev pub reason_for : ExpressionEvaluationResult → EligibilityReason
reason_for e = record {
  reason_code = e.reason_code;
  course_rule_expression_id = e.course_rule_expression_id;
  referenced_entity_id = e.matched_course_id;
}

-- One of the four lists of `_reasons_from_expressions`: that of the expressions with the result.
unfoldable pub reasons_from_expressions :
    EligibilityRuleResult → List ExpressionEvaluationResult → List EligibilityReason
reasons_from_expressions result expressions =
    map reason_for
      (filter_by (λ (e : ExpressionEvaluationResult). rule_result_eq e.result result) expressions)

abbrev pub code_eq : ReasonCode → ReasonCode → Bool
code_eq corequisite_completed corequisite_completed = true
code_eq corequisite_transfer_satisfied corequisite_transfer_satisfied = true
code_eq corequisite_in_progress corequisite_in_progress = true
code_eq corequisite_concurrent_plan corequisite_concurrent_plan = true
code_eq corequisite_must_enroll corequisite_must_enroll = true
code_eq _ _ = false

abbrev pub has_code : List ReasonCode → ReasonCode → Bool
has_code codes code = any_by (code_eq code) codes

-- The codes that start with `COREQUISITE`.
abbrev pub corequisite_codes : List ReasonCode
corequisite_codes =
    corequisite_completed ∷ corequisite_transfer_satisfied ∷ corequisite_in_progress
    ∷ corequisite_concurrent_plan ∷ corequisite_must_enroll ∷ []

-- `list(dict.fromkeys(ids))`, where some have been seen already.
unfoldable pub distinct_ids : List Uuid → List Uuid → List Uuid
distinct_ids seen [] = []
distinct_ids seen (id ∷ ids) = elim (any_by (λ s. s == id) seen) [
  | true ↦ distinct_ids seen ids
  | false ↦ id ∷ distinct_ids (id ∷ seen) ids
]

-- The courses of the expressions with one of the codes.
unfoldable pub courses_with : List ReasonCode → List ExpressionEvaluationResult → List Uuid
courses_with codes expressions =
    flat_map_by
      (λ (e : ExpressionEvaluationResult).
        if has_code codes e.reason_code
        then elim e.matched_course_id as (λ _. List Uuid) [ none ↦ [] | some id ↦ id ∷ [] ]
        else [])
      expressions

unfoldable pub corequisite_summary : List ExpressionEvaluationResult → Option CorequisiteSummary
corequisite_summary expressions = elim (courses_with corequisite_codes expressions) [
  | [] ↦ none
  | id ∷ ids ↦ some (record {
    required_corequisite_courses = distinct_ids [] (id ∷ ids);
    already_completed =
        distinct_ids []
          (courses_with (corequisite_completed ∷ corequisite_transfer_satisfied ∷ []) expressions);
    currently_in_progress =
        distinct_ids [] (courses_with (corequisite_in_progress ∷ []) expressions);
    must_enroll_concurrently =
        distinct_ids []
          (courses_with (corequisite_must_enroll ∷ corequisite_concurrent_plan ∷ []) expressions);
  })
]

unfoldable pub registration_availability : Option Section → Option RegistrationAvailability
registration_availability none = none
registration_availability (some s) = some (record {
  section_status = s.status;
  available_seats = s.available_seats;
  waitlist_available = s.waitlist_available;
})
