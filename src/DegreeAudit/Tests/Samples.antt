-- ===== src/DegreeAudit/Tests/Samples.antt =====
-- A small program version: a root whose children are a required course, a choice of one course and a
-- pool of credits, with a completed attempt, one in progress, and a transfer.
use smart_academic_planning.Prelude.{
  ◌*◌, ℕ, Bool, true, false, Option, none, some, [], ◌∷◌, lookup, codes, ◌<◌, All, values, refl,
  inl, inr, ◌==◌, if◌then◌else◌, arith,
}
use smart_academic_planning.DegreeAudit.Records.{
  Credits, Uuid, Course, RequirementNode, RequirementCourseOption, StudentCourseAttempt,
  TransferCredit, CourseWaiver, RequirementType, StudentCourseAttemptStatus, ApprovalStatus,
  SourceType, AuditMode, AuditApplicationType, RequirementEvaluationStatus,
}
use smart_academic_planning.DegreeAudit.Quantize.{tenth}
use smart_academic_planning.DegreeAudit.Result.{SourceKind, RequirementResult}
use smart_academic_planning.DegreeAudit.Grades.{GradePolicy, default_grade_order}
use smart_academic_planning.DegreeAudit.Monad.{AuditState}
use smart_academic_planning.DegreeAudit.Candidates.{CourseCandidate}
use smart_academic_planning.DegreeAudit.Context.{AuditContext}
use smart_academic_planning.DegreeAudit.Evaluators.{Pool}
use smart_academic_planning.DegreeAudit.Context.Eligible.{Readable, IsCandidate}
use smart_academic_planning.DegreeAudit.Context.Closed.{Closed}
use smart_academic_planning.DegreeAudit.Engine.Recursion.{Consistent, IsRanked}

abbrev pub empty_state : AuditState
empty_state = record { warnings = []; used_sources = []; evaluated = [] }

-- An amount of credits, from its tenths.
abbrev pub tenths : ℕ → Credits
tenths n = n * tenth

abbrev pub policy : GradePolicy
policy = record { grade_order = default_grade_order }

abbrev node : Uuid → Option Uuid → RequirementType → ℕ → RequirementNode
node id parent type order = record {
  id = id;
  parent_id = parent;
  code = codes "N";
  name = codes "Node";
  requirement_type = type;
  display_order = order;
  minimum_credits = some (tenths 60);
  minimum_courses = none;
  choose_n = some 1;
  minimum_grade = some (codes "C");
  minimum_course_level = none;
  minimum_residency_credits = none;
  allows_overlap = false;
}

abbrev pub root_node : RequirementNode
root_node = node 10 none RequirementType.all_of 0

abbrev pub required_node : RequirementNode
required_node = node 11 (some 10) RequirementType.required_course 1

abbrev pub choice_node : RequirementNode
choice_node = node 12 (some 10) RequirementType.choose_n 2

abbrev pub pool_node : RequirementNode
pool_node = node 13 (some 10) RequirementType.minimum_credits 3

abbrev pub option : Uuid → Uuid → RequirementCourseOption
option node_id course_id = record {
  requirement_node_id = node_id;
  course_id = course_id;
  display_order = 0;
  minimum_grade = none;
  credits_override = none;
}

abbrev pub course : Uuid → Course
course id = record { id = id; institution_id = 0; credits_min = tenths 30; course_level = 100 }

abbrev pub attempt : Uuid → Uuid → StudentCourseAttemptStatus → StudentCourseAttempt
attempt id course_id status = record {
  id = id;
  student_profile_id = 0;
  course_id = course_id;
  attempt_number = 1;
  status = status;
  grade = some (codes "b+");
  credits_attempted = tenths 30;
  credits_earned = tenths 30;
  source_type = SourceType.official;
  course_state_snapshot_id = none;
}

abbrev pub transfer : TransferCredit
transfer = record {
  id = 40;
  student_profile_id = 0;
  equivalent_course_id = some 3;
  credits_earned = tenths 40;
  grade = some (codes "A");
  status = ApprovalStatus.approved;
  source_type = SourceType.official;
}

abbrev pub mock_waiver : CourseWaiver
mock_waiver = record {
  id = 50;
  requirement_node_id = some 11;
  status = ApprovalStatus.pending;
  source_type = SourceType.mock;
}

abbrev pub ctx : AuditContext
ctx = record {
  student_profile_id = 1;
  program_version_id = 2;
  mode = AuditMode.projected;
  total_required_credits = tenths 1200;
  nodes_by_id = (10, root_node) ∷ (11, required_node) ∷ (12, choice_node) ∷ (13, pool_node) ∷ [];
  roots = root_node ∷ [];
  children_by_parent = (10, required_node ∷ choice_node ∷ pool_node ∷ []) ∷ [];
  options_by_node = (11, option 11 1 ∷ []) ∷ (12, option 12 2 ∷ option 12 3 ∷ []) ∷ [];
  courses_by_id = (1, course 1) ∷ (2, course 2) ∷ (3, course 3) ∷ [];
  grade_policy = policy;
  attempts_by_course =
      (1, attempt 20 1 StudentCourseAttemptStatus.completed ∷ [])
      ∷ (2, attempt 21 2 StudentCourseAttemptStatus.in_progress ∷ [])
      ∷ [];
  transfers_by_course = (3, transfer ∷ []) ∷ [];
  waivers_by_requirement = [];
  substitutions_by_requirement = [];
  equivalencies_by_equivalent = [];
}

pub ctx-Closed : Closed ⊥ ctx
unfolding lookup
ctx-Closed = record {
  transfers = ((λ e. cc, tt), tt);
  substitutions = tt;
  options = ((λ e. cc, tt), ((λ e. cc, (λ e. cc, tt)), tt));
}

pub course_2-Readable : Readable ⊥ ctx 2
unfolding lookup
course_2-Readable e = cc

-- A pool that reserves its sources, as `MinimumCreditsEvaluator` asks for it.
abbrev pub pool : Pool
pool = record {
  required_credits = tenths 60;
  reserve_sources = true;
  only_resident = false;
  minimum_course_level = none;
}

-- The height of a node in the tree.
abbrev pub height : Uuid → ℕ
height id = if id == 10 then 1 else 0

pub ctx-IsRanked : IsRanked height ctx
ctx-IsRanked = ((omega arith, (omega arith, (omega arith, tt))), tt)

pub roots-low : All (λ (n : RequirementNode). height n.id < 3) ctx.roots
roots-low = (omega arith, tt)

pub nodes-low : All (λ (n : RequirementNode). height n.id < 3) (values ctx.nodes_by_id)
nodes-low = (omega arith, (omega arith, (omega arith, (omega arith, tt))))

pub empty_state-Consistent : Consistent empty_state
unfolding lookup
empty_state-Consistent id r e = cc

-- A candidate by its source, its course and its state.
abbrev pub candidate : Uuid → Option Uuid → Bool → CourseCandidate
candidate source course_id is_completed = record {
  source_key = (SourceKind.attempt, source);
  course_id = course_id;
  application_type = AuditApplicationType.course_attempt;
  credits = tenths 30;
  grade = none;
  is_completed = is_completed;
  is_in_progress = if is_completed then false else true;
  is_planned = false;
  is_resident = true;
  course_level = some 100;
  student_course_attempt_id = some source;
  transfer_credit_id = none;
  course_waiver_id = none;
  course_substitution_id = none;
}

pub candidates-Are : All IsCandidate (candidate 20 (some 1) true ∷ candidate 21 (some 1) false ∷ [])
candidates-Are =
    (((1, refl), inl (refl, refl, refl)), (((1, refl), inr (inl (refl, refl, refl))), tt))

-- A result for a child requirement, with its status.
abbrev pub child : Uuid → RequirementEvaluationStatus → ℕ → RequirementResult
child id status order = record {
  requirement_node_id = id;
  requirement_code = codes "N";
  requirement_name = codes "Node";
  requirement_type = RequirementType.required_course;
  status = status;
  required_credits = none;
  satisfied_credits = tenths 30;
  remaining_credits = 0;
  required_courses = some 1;
  satisfied_courses = 1;
  remaining_courses = 0;
  minimum_grade = none;
  display_order = order;
  applications = [];
  warnings = [];
}
