-- ===== src/DegreeAudit/Evaluators/Base.antt =====
-- engine.py: `BaseEvaluator`, `application_from_candidate` and what is quantized in a result.
use mathlib.Core.Option
use smart_academic_planning.Prelude.{
  ℕ, ◌-◌, Bool, Option, List, [], ◌∷◌, or_else, truthy, get_or_zero,
}
use smart_academic_planning.DegreeAudit.Records.{
  Credits, RequirementNode, RequirementEvaluationStatus,
}
use smart_academic_planning.DegreeAudit.Quantize.{quantize_credits}
use smart_academic_planning.DegreeAudit.Result.{
  WarningCode, AuditWarningResult, CourseApplicationResult, RequirementResult,
}
use smart_academic_planning.DegreeAudit.Candidates.{CourseCandidate}
use smart_academic_planning.DegreeAudit.Context.{node_warning}

unfoldable pub application_from_candidate :
    RequirementNode → CourseCandidate → Bool → CourseApplicationResult
application_from_candidate node c is_shared = record {
  requirement_node_id = node.id;
  application_type = c.application_type;
  credit_amount = quantize_credits c.credits;
  is_completed = c.is_completed;
  is_in_progress = c.is_in_progress;
  is_planned = c.is_planned;
  is_shared = is_shared;
  course_id = c.course_id;
  student_course_attempt_id = c.student_course_attempt_id;
  transfer_credit_id = c.transfer_credit_id;
  course_waiver_id = c.course_waiver_id;
  course_substitution_id = c.course_substitution_id;
  grade = c.grade;
}

-- `node.minimum_courses or node.choose_n`: zero is falsy, but the last operand is kept.
abbrev pub asked_courses : RequirementNode → Option ℕ
asked_courses node = or_else (truthy node.minimum_courses) node.choose_n

unfoldable pub manual_review : RequirementNode → WarningCode → RequirementResult
manual_review node code = record {
  requirement_node_id = node.id;
  requirement_code = node.code;
  requirement_name = node.name;
  requirement_type = node.requirement_type;
  status = RequirementEvaluationStatus.manual_review_required;
  required_credits = node.minimum_credits;
  satisfied_credits = 0;
  remaining_credits = quantize_credits (get_or_zero node.minimum_credits);
  required_courses = asked_courses node;
  satisfied_courses = 0;
  remaining_courses = get_or_zero (asked_courses node);
  minimum_grade = node.minimum_grade;
  display_order = node.display_order;
  applications = [];
  warnings = node_warning code node.id ∷ [];
}

-- The keyword arguments of `result`.
pub record Figures : Type 0 where
  pub status : RequirementEvaluationStatus
  pub required_credits : Option Credits
  pub satisfied_credits : Credits
  pub required_courses : Option ℕ
  pub satisfied_courses : ℕ
  pub applications : List CourseApplicationResult
  pub warnings : List AuditWarningResult

-- `max(a - b, 0)` is the truncated difference.
unfoldable pub result : RequirementNode → Figures → RequirementResult
result node o = record {
  requirement_node_id = node.id;
  requirement_code = node.code;
  requirement_name = node.name;
  requirement_type = node.requirement_type;
  status = o.status;
  required_credits = Option.map quantize_credits o.required_credits;
  satisfied_credits = quantize_credits o.satisfied_credits;
  remaining_credits = quantize_credits (get_or_zero o.required_credits - o.satisfied_credits);
  required_courses = o.required_courses;
  satisfied_courses = o.satisfied_courses;
  remaining_courses = get_or_zero o.required_courses - o.satisfied_courses;
  minimum_grade = node.minimum_grade;
  display_order = node.display_order;
  applications = o.applications;
  warnings = o.warnings;
}
