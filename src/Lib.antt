-- ===== src/Lib.antt =====
-- Smart Academic Planning: services of the API, apps/api/app/services.
--
-- DegreeAudit models degree_audit, Scenarios the allocator of academic_scenarios, Eligibility
-- course_eligibility with the reads of course_state that it stands on, and CourseRules the validation
-- of course rules in apps/api/app/domain.
--
-- An audit reads a program version's tree of requirements and a student's records, decides for each
-- requirement which records apply to it and what its status is, and sums this up in a report. Its
-- parts and their files:
--
--   DegreeAudit/Records      the enumerations and rows of apps/api/app/models/academic.py
--   DegreeAudit/Result       result.py, and the source keys of allocator.py
--   DegreeAudit/Grades       grade_policy.py: GradePolicy
--   DegreeAudit/Allocator    allocator.py: AuditAllocator
--   DegreeAudit/Keys         the tuples that the code sorts by
--   DegreeAudit/Candidates   context.py: CourseCandidate and candidate_sort_key
--   DegreeAudit/Context      context.py: AuditContext (Attempts: _attempt_candidate and
--                            _transfer_candidate; Courses: course_candidates and
--                            all_course_candidates; Summary: credit_summary)
--   DegreeAudit/Index        context.py: the build_* functions and add_pending_record_warnings
--   DegreeAudit/Status       engine.py: leaf_status to any_of_status, status_rank, sum_optional
--   DegreeAudit/Quantize     engine.py: quantize_credits, and the rounding of Decimal.quantize
--   DegreeAudit/Evaluators   engine.py: the evaluators (Base: BaseEvaluator; Selection: the loops
--                            that select candidates; Leaves: RequiredCourse, ChooseN,
--                            MinimumCourses, TotalCredits; Pools: evaluate_credit_pool and its
--                            three evaluators; Parents: AllOf, Group, AnyOf, ManualReview)
--   DegreeAudit/Engine       engine.py: EvaluatorRegistry and evaluate_node (Registry),
--                            _load_context (Loading), evaluate (Report)
--   DegreeAudit/Monad        the state of one run, and its failures
--   DegreeAudit/Frames       what holds of the result and the state when a step ends
--   DegreeAudit/Tests        sample data, and the theorems applied to it
--
-- A scenario distributes the records of a student over several programs. Its allocator searches the
-- combinations of choices for each source, under a limit, for the valid one of the greatest score:
--
--   Scenarios/Candidates     allocator.py: the records, candidate_sort_key, stable_candidate_key
--   Scenarios/Policies       allocator.py: is_shareable, _is_valid_selection
--   Scenarios/Objective      allocator.py: AllocationObjective, objective_for
--   Scenarios/Search         allocator.py: _choices_by_source, visit
--   Scenarios/Allocate       allocator.py: allocate
--   Scenarios/Tests          sample candidates, and the theorems applied to them
--
-- A check of course eligibility reads a student's records and the rules of a course, evaluates the
-- tree of expressions of each rule, and sums the results up:
--
--   Eligibility/Records      the enumerations and rows of apps/api/app/models/academic.py
--   Eligibility/Result       result.py and exceptions.py, and the records of engine.py
--   Eligibility/Checked      what a call returns or raises
--   Eligibility/Evidence     active_course_state_snapshot and effective_student_course_attempts of
--                            course_state/engine.py, and the tables that are read
--   Eligibility/Rollup       engine.py: the combination of the operands' results
--   Eligibility/Leaves       engine.py: the evaluators of the leaves (Courses, Student), the registry
--   Eligibility/Tree         engine.py: _load_expression_tree, _evaluate_expression_tree
--   Eligibility/Engine       engine.py: _build_context and _load_rules (Request), the summaries of the
--                            results (Summary), evaluate
--   Eligibility/Store        engine.py: create_check
--   Eligibility/Samples      sample tables
--   Eligibility/Tests        the theorems applied to them
--
-- The structure of a tree of expressions has a validation of its own:
--
--   CourseRules              apps/api/app/domain/course_rules.py
--   CourseRules/Tests        sample trees, and the theorems applied to them
--
--   Prelude                  lists, sorting, dictionaries and text
--
-- The other files below these folders hold proofs only. A function keeps the source's name. A
-- piece of a long method has a name of its own, and stands in the order of the source.
--
-- The state of a run is a record of the three things that the code mutates: `warnings` of
-- AuditContext, `_used_sources` of AuditAllocator and the dictionary `evaluated`. A step takes the
-- state and returns a value with the new state, or raises: KeyError for a course that is not in
-- `courses_by_id`, RecursionError, or the ValueError for a missing program version. `Ends F o P` says
-- that the outcome `o` returns with `P`, or raises while `F` holds; with `F` the empty type it says
-- that the step returns.
--
-- Representation. A UUID is a number, and the text of a UUID is compared as that number. Credits
-- are natural numbers of 10⁻²⁰ credits. The tables hold numerics of one decimal, but a reviewed
-- requirement may ask for any positive Decimal, so `quantize_credits` rounds half to even to
-- `tenth`, 10¹⁹ units; for amounts of up to 20 decimals and below 10⁸ credits the 28 digits of
-- Decimal make every sum and difference exact, as here. No amount is negative, by the tables'
-- constraints and those of the reviewed rules. The amounts of Scenarios and Eligibility are never
-- rounded, and any unit serves there. A percentage is a number of hundredths, rounded half to even
-- too. Text is a list of code points, with `upper` and `strip` on ASCII. A dictionary is an
-- association list in the order of insertion, a set a list. `sorted` is a stable insertion sort. The
-- list under the key None of `children_by_parent` is the field `roots`.
--
-- Fuel. Only `evaluate_node` recurses on a number, the depth of the stack. The tree comes from a
-- table that does not exclude cycles, so a ranking of the nodes that falls from parent to child is a
-- hypothesis where the theorem needs that the recursion ends; any depth above the ranks is enough.
--
-- `evaluate_expression_tree` recurses on the depth of the stack too, and there the number of
-- expressions is proved to be enough, since each has one parent; so it is for the walk of CourseRules.
-- The search of the allocator recurses on the list of sources and has no fuel: `search_limit` is the
-- program's own. The variables that `visit` shares with `allocate` are the record `Search`.
--
-- Not modelled. The SQL of the queries, `reviewed_requirement_view`, the effective attempts of the
-- course-state component and the active snapshot are the input `LoadedRows`. The explanations and
-- messages, `source_snapshot_hash` and the references to reviewed rules are left out of the results.
-- The tables of an eligibility check are lists of rows, those of the rules and their expressions in
-- the order that the queries ask for; `evaluate_reviewed_prerequisites` is a parameter, and the texts
-- of display and `_snapshot_hash` are left out.
-- persistence.py stores a report and is left out, as is engine.py of academic_scenarios. The other
-- services under apps/api/app/services and the clients of the API are left out.
pub mod Prelude
pub mod DegreeAudit
pub mod Scenarios
pub mod Eligibility
pub mod CourseRules
