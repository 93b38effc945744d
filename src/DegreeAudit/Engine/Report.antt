-- ===== src/DegreeAudit/Engine/Report.antt =====
-- engine.py: the report that `evaluate` makes of the evaluated requirements.
use smart_academic_planning.Prelude.{
  ℕ, ◌-◌, ◌*◌, min, Bool, Option, none, some, List, [], ◌∷◌, ◌++◌, ltb, if◌then◌else◌, sorted,
  values, flat_map_by,
}
use smart_academic_planning.DegreeAudit.Keys.{entry_leb}
use smart_academic_planning.DegreeAudit.Records.{
  Uuid, Credits, AuditMode, AuditRunStatus, completed, completed_with_warnings,
}
use smart_academic_planning.DegreeAudit.Quantize.{round_half_even, quantize_credits}
use smart_academic_planning.DegreeAudit.Result.{
  AuditWarningResult, RequirementResult, DegreeAuditResult,
}
use smart_academic_planning.DegreeAudit.Grades.{GradePolicy}
use smart_academic_planning.DegreeAudit.Monad.{
  AuditState, Audit, Outcome, raise, program_version_not_found, get, return, ◌>>=◌, ◌>>◌,
}
use smart_academic_planning.DegreeAudit.Context.{AuditContext, CreditTotals, credit_summary}
use smart_academic_planning.DegreeAudit.Engine.Registry.{evaluate_all}
use smart_academic_planning.DegreeAudit.Engine.Loading.{
  LoadedRows, effective_rows, load_context, load_warnings,
}

-- (display_order, requirement_code, str(requirement_node_id))
unfoldable pub result_leb : RequirementResult → RequirementResult → Bool
result_leb x y =
    entry_leb (x.display_order, x.requirement_code, x.requirement_node_id)
      (y.display_order, y.requirement_code, y.requirement_node_id)

-- The percentage in hundredths of a percent: `quantize_percentage(completed / total * 100)`, at
-- most 100.00. Decimal's 28 digits hold the quotient of two such amounts closely enough for it to
-- be rounded as the exact one.
unfoldable pub completion_percentage : Credits → Credits → ℕ
completion_percentage done total =
    min (if ltb 0 total then round_half_even (done * 10000) total else 0) 10000

abbrev pub run_status : List AuditWarningResult → AuditRunStatus
run_status [] = completed
run_status (w ∷ ws) = completed_with_warnings

unfoldable pub sort_requirements : List RequirementResult → List RequirementResult
sort_requirements = sorted result_leb

unfoldable pub make_report :
    AuditContext
    → List RequirementResult
    → CreditTotals
    → List AuditWarningResult
    → DegreeAuditResult
make_report ctx requirements totals own_warnings =
    let warnings = own_warnings ++ flat_map_by (λ r. r.warnings) requirements in
    record {
      student_profile_id = ctx.student_profile_id;
      program_version_id = ctx.program_version_id;
      status = run_status warnings;
      calculation_mode = ctx.mode;
      total_required_credits = quantize_credits ctx.total_required_credits;
      completed_credits = quantize_credits totals.completed;
      in_progress_credits = quantize_credits totals.in_progress;
      planned_credits = quantize_credits totals.planned;
      remaining_credits = quantize_credits (ctx.total_required_credits - totals.completed);
      completion_percentage = completion_percentage totals.completed ctx.total_required_credits;
      requirements = requirements;
      warnings = warnings;
    }

-- `evaluate` behind `_load_context`. The summary is made once more, and may add warnings.
unfoldable pub evaluate_context : ℕ → AuditContext → Audit DegreeAuditResult
evaluate_context depth ctx = do
  evaluate_all depth ctx
  before ← get
  totals ← credit_summary ctx
  after ← get
  return (make_report ctx (sort_requirements (values before.evaluated)) totals after.warnings)

abbrev pub initial_state : List AuditWarningResult → AuditState
initial_state warnings = record { warnings = warnings; used_sources = []; evaluated = [] }

-- `DegreeAuditEngine.evaluate`, over the rows that the queries return for the program version.
unfoldable pub evaluate :
    ℕ → Uuid → Uuid → AuditMode → GradePolicy → Option LoadedRows → Outcome DegreeAuditResult
evaluate depth student program mode policy none = raise program_version_not_found
evaluate depth student program mode policy (some loaded) =
    let rows = effective_rows loaded in
    evaluate_context depth (load_context student program mode policy rows)
      (initial_state (load_warnings rows))
