-- ===== src/DegreeAudit/Tests/Audit.antt =====
-- The theorems on whole requirements and audits, applied to the sample program.
use smart_academic_planning.Prelude.{true, some, none, false, arith, [], ◌∷◌, ◌≡◌, refl}
use smart_academic_planning.DegreeAudit.Monad.{ok}
use smart_academic_planning.DegreeAudit.Frames.{Ends}
use smart_academic_planning.DegreeAudit.Evaluators.{evaluate_credit_pool, apply_credits}
use smart_academic_planning.DegreeAudit.Evaluators.Exclusive.{TakesFresh, apply_credits-TakesFresh}
use smart_academic_planning.DegreeAudit.Engine.{
  evaluate_node, evaluate, LoadedRows, load_context, effective_rows, load_warnings, initial_state,
}
use smart_academic_planning.DegreeAudit.Engine.Total.{evaluate_node_twice}
use smart_academic_planning.DegreeAudit.Engine.Completeness.{IsComplete}
use smart_academic_planning.DegreeAudit.Context.{course_candidates}
use smart_academic_planning.DegreeAudit.Context.Eligible.{ReturnsAll}
use smart_academic_planning.DegreeAudit.Context.Closed.{course_candidates-Ends}
use smart_academic_planning.DegreeAudit.Engine.EndToEnd.{IsWellFormed, evaluate-IsComplete}
use smart_academic_planning.DegreeAudit.Records.{AuditMode, StudentCourseAttemptStatus}
use smart_academic_planning.DegreeAudit.Result.{SourceKind}
use smart_academic_planning.DegreeAudit.Context.Ignores.{reserving}
use smart_academic_planning.DegreeAudit.Evaluators.Unreserved.{evaluate_credit_pool_unreserved}
use smart_academic_planning.DegreeAudit.Tests.Samples.{
  policy, tenths, required_node, option, course, attempt, transfer, mock_waiver, ctx, ctx-Closed,
  ctx-IsRanked, roots-low, height, empty_state, root_node, pool_node, choice_node, candidate, pool,
  course_2-Readable,
}

-- The rows of the sample program, under an active snapshot that was truncated, with a pending waiver
-- from sample data.
abbrev rows : LoadedRows
rows = record {
  total_credits_required = tenths 1200;
  nodes = root_node ∷ required_node ∷ choice_node ∷ pool_node ∷ [];
  options = option 11 1 ∷ option 12 2 ∷ option 12 3 ∷ [];
  courses = course 1 ∷ course 2 ∷ course 3 ∷ [];
  resolution_warnings = [];
  resolution_conflict = false;
  active_snapshot = some (record { extraction_bounded = false; extraction_truncated = true });
  attempts = attempt 20 1 StudentCourseAttemptStatus.completed ∷ [];
  transfers = transfer ∷ [];
  waivers = mock_waiver ∷ [];
  substitutions = [];
  equivalencies = [];
}

rows-IsWellFormed : IsWellFormed height 3 rows
rows-IsWellFormed = record {
  transfers = (refl, tt);
  substitutions = tt;
  options = (refl, (refl, (refl, tt)));
  ranked = (tt, (omega arith, (omega arith, (omega arith, tt))));
  low = (omega arith, (omega arith, (omega arith, (omega arith, tt))));
}

evaluate-IsComplete_example :
    Ends ⊥ (evaluate 3 1 2 AuditMode.projected policy (some rows)) (λ rep s'.
      IsComplete
        (load_context 1 2 AuditMode.projected policy (effective_rows rows))
        (initial_state (load_warnings (effective_rows rows)))
        rep)
evaluate-IsComplete_example =
    evaluate-IsComplete height 3 1 2 AuditMode.projected policy rows rows-IsWellFormed

evaluate_node_twice_example :
    Ends ⊥
      (evaluate_node 3 ctx root_node empty_state)
      (λ r s'. evaluate_node 1 ctx root_node s' ≡ ok r s')
evaluate_node_twice_example =
    evaluate_node_twice height ctx ctx-Closed ctx-IsRanked 3 0 root_node roots-low.0 empty_state

apply_credits-TakesFresh_example :
    Ends ⊥
      (apply_credits pool_node pool 0
        (candidate 20 (some 1) true ∷ candidate 20 (some 2) true ∷ [])
        empty_state)
      (TakesFresh empty_state)
apply_credits-TakesFresh_example =
    apply_credits-TakesFresh pool_node pool refl refl
      (candidate 20 (some 1) true ∷ candidate 20 (some 2) true ∷ []) 0 empty_state

course_candidates-Ends_example :
    Ends ⊥
      (course_candidates ctx choice_node 2 none empty_state)
      (λ found s'. ReturnsAll found empty_state s')
course_candidates-Ends_example =
    course_candidates-Ends ⊥ ctx choice_node ctx-Closed 2 none course_2-Readable empty_state

evaluate_credit_pool_unreserved_example :
    Ends ⊥ (evaluate_credit_pool pool_node pool ctx empty_state) (λ r _.
      Ends ⊥
        (evaluate_credit_pool pool_node pool ctx
          (reserving ((SourceKind.attempt, 20) ∷ []) empty_state))
        (λ q _. (q.status ≡ r.status) × (q.satisfied_credits ≡ r.satisfied_credits)))
evaluate_credit_pool_unreserved_example =
    evaluate_credit_pool_unreserved ctx pool_node ctx-Closed pool empty_state
      ((SourceKind.attempt, 20) ∷ [])
