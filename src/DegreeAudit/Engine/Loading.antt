-- ===== src/DegreeAudit/Engine/Loading.antt =====
-- engine.py: `_load_context`, over the rows that its queries return, and `evaluate` from its start.
use smart_academic_planning.Prelude.{
  ℕ, Bool, true, not, ◌||◌, Option, none, some, List, [], ◌∷◌, ◌++◌, Dict, if◌then◌else◌, ltb,
  count_by, filter_by, map,
}
use smart_academic_planning.DegreeAudit.Records.{
  Uuid, Credits, AuditMode, RequirementNode, RequirementCourseOption, Course, StudentCourseAttempt,
  TransferCredit, CourseWaiver, CourseSubstitution, CourseEquivalency, SourceType,
  AuditWarningSeverity, info, warning, error, is_mock, is_completed_attempt,
}
use smart_academic_planning.DegreeAudit.Result.{
  WarningCode, AuditWarningResult, reviewed_rule_mapping_requires_review, reviewed_rule_conflict,
  active_non_official_course_state_snapshot, source_bounded_or_truncated, repeat_policy_ambiguity,
}
use smart_academic_planning.DegreeAudit.Grades.{GradePolicy}
use smart_academic_planning.DegreeAudit.Context.{AuditContext}
use smart_academic_planning.DegreeAudit.Index.{
  build_children_by_parent, build_roots, build_options_by_node, build_attempts_by_course,
  build_transfers_by_course, build_waivers_by_requirement, build_substitutions_by_requirement,
  build_equivalencies_by_equivalent, by_id_from, pending_record_warnings,
}

-- The fields of the active `CourseStateSnapshot` that the audit reads.
pub record ActiveSnapshot : Type 0 where
  pub extraction_bounded : Bool
  pub extraction_truncated : Bool

-- What the queries return, before the tests on `source_type`; the nodes and options are those
-- behind `reviewed_requirement_view`, with the number of the messages that it returns.
pub record LoadedRows : Type 0 where
  pub total_credits_required : Credits
  pub nodes : List RequirementNode
  pub options : List RequirementCourseOption
  pub courses : List Course
  pub resolution_warnings : List (Unit {0})
  pub resolution_conflict : Bool
  pub active_snapshot : Option ActiveSnapshot
  pub attempts : List StudentCourseAttempt
  pub transfers : List TransferCredit
  pub waivers : List CourseWaiver
  pub substitutions : List CourseSubstitution
  pub equivalencies : List CourseEquivalency

-- `source_type != MOCK`, asked only under an active snapshot.
unfoldable pub keeps_source : Option ActiveSnapshot → SourceType → Bool
keeps_source none source = true
keeps_source (some snapshot) source = not (is_mock source)

unfoldable pub effective_rows : LoadedRows → LoadedRows
effective_rows rows = record rows {
  transfers =
      filter_by (λ (t : TransferCredit). keeps_source rows.active_snapshot t.source_type)
        rows.transfers;
  waivers =
      filter_by (λ (w : CourseWaiver). keeps_source rows.active_snapshot w.source_type)
        rows.waivers;
  substitutions =
      filter_by (λ (s : CourseSubstitution). keeps_source rows.active_snapshot s.source_type)
        rows.substitutions;
}

abbrev pub run_warning : WarningCode → AuditWarningSeverity → AuditWarningResult
run_warning code severity = record {
  warning_code = code;
  severity = severity;
  requires_advisor_confirmation = true;
  requirement_node_id = none;
}

unfoldable pub snapshot_warnings : Option ActiveSnapshot → List AuditWarningResult
snapshot_warnings none = []
snapshot_warnings (some snapshot) =
    run_warning active_non_official_course_state_snapshot info
    ∷ (if snapshot.extraction_bounded || snapshot.extraction_truncated
        then run_warning source_bounded_or_truncated warning ∷ []
        else [])

-- One warning for each course with several completed attempts.
unfoldable pub repeat_warnings : Dict (List StudentCourseAttempt) → List AuditWarningResult
repeat_warnings attempts_by_course =
    map (λ _. run_warning repeat_policy_ambiguity warning)
      (filter_by
        (λ (e : ℕ × List StudentCourseAttempt).
          ltb 1 (count_by (λ (a : StudentCourseAttempt). is_completed_attempt a.status) e.1))
        attempts_by_course)

-- The warnings that `_load_context` leaves in the context, in their order.
unfoldable pub load_warnings : LoadedRows → List AuditWarningResult
load_warnings rows =
    map (λ _. run_warning reviewed_rule_mapping_requires_review warning) rows.resolution_warnings
    ++ ((if rows.resolution_conflict then run_warning reviewed_rule_conflict error ∷ [] else [])
        ++ (pending_record_warnings rows.transfers rows.waivers rows.substitutions
            ++ (snapshot_warnings rows.active_snapshot
                ++ repeat_warnings (build_attempts_by_course rows.attempts))))

unfoldable pub load_context : Uuid → Uuid → AuditMode → GradePolicy → LoadedRows → AuditContext
load_context student program mode policy rows = record {
  student_profile_id = student;
  program_version_id = program;
  mode = mode;
  total_required_credits = rows.total_credits_required;
  nodes_by_id = by_id_from (λ n. n.id) [] rows.nodes;
  roots = build_roots rows.nodes;
  children_by_parent = build_children_by_parent rows.nodes;
  options_by_node = build_options_by_node rows.options;
  courses_by_id = by_id_from (λ c. c.id) [] rows.courses;
  grade_policy = policy;
  attempts_by_course = build_attempts_by_course rows.attempts;
  transfers_by_course = build_transfers_by_course rows.transfers;
  waivers_by_requirement = build_waivers_by_requirement rows.waivers;
  substitutions_by_requirement = build_substitutions_by_requirement rows.substitutions;
  equivalencies_by_equivalent = build_equivalencies_by_equivalent rows.equivalencies;
}
