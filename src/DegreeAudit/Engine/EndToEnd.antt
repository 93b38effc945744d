-- ===== src/DegreeAudit/Engine/EndToEnd.antt =====
-- `DegreeAuditEngine.evaluate` from the rows of the queries to the report.
use smart_academic_planning.Prelude.{
  ℕ, ◌<◌, ◌==◌, true, Option, none, some, List, [], lookup, values, any_by, ◌≡◌, All, All-map,
  All-filter, sorted-All,
}
use smart_academic_planning.DegreeAudit.Records.{
  Uuid, AuditMode, Course, RequirementNode, RequirementCourseOption, TransferCredit,
  CourseSubstitution,
}
use smart_academic_planning.DegreeAudit.Grades.{GradePolicy}
use smart_academic_planning.DegreeAudit.Frames.{Ends}
use smart_academic_planning.DegreeAudit.Context.{AuditContext}
use smart_academic_planning.DegreeAudit.Context.Eligible.{Readable, Readable?}
use smart_academic_planning.DegreeAudit.Context.Closed.{Closed}
use smart_academic_planning.DegreeAudit.Index.{
  build_roots, sorted_nodes, build_children_by_parent, build_options_by_node,
  build_transfers_by_course, build_substitutions_by_requirement, is_root,
}
use smart_academic_planning.DegreeAudit.Index.Rows.{
  AtKey, Holds, group_by-Holds, lookup-by_id_from, by_id_from-All,
}
use smart_academic_planning.DegreeAudit.Engine.Loading.{
  LoadedRows, effective_rows, load_context, load_warnings,
}
use smart_academic_planning.DegreeAudit.Engine.Report.{evaluate, evaluate_context, initial_state}
use smart_academic_planning.DegreeAudit.Engine.Recursion.{Consistent, IsRanked}
use smart_academic_planning.DegreeAudit.Engine.Completeness.{
  IsComplete, evaluate_context-IsComplete,
}

-- The course is one of the rows.
abbrev pub IsKnown : List Course → Uuid → Type 0
IsKnown courses id = any_by (λ (c : Course). c.id == id) courses ≡ true

abbrev pub IsKnown? : List Course → Option Uuid → Type 0
IsKnown? courses none = Unit
IsKnown? courses (some id) = IsKnown courses id

abbrev pub IsBelow : (Uuid → ℕ) → Uuid → Option Uuid → Type 0
IsBelow rank id none = Unit
IsBelow rank id (some parent) = rank id < rank parent

-- The rows name only courses that are there, and the ranks of the nodes fall from a parent to its
-- children and are below the depth of the stack.
pub record IsWellFormed (rank : Uuid → ℕ) (depth : ℕ) (rows : LoadedRows) : Type 0 where
  pub transfers :
      All (λ (t : TransferCredit). IsKnown? rows.courses t.equivalent_course_id) rows.transfers
  pub substitutions :
      All
        (λ (s : CourseSubstitution). IsKnown rows.courses s.substitute_course_id)
        rows.substitutions
  pub options : All (λ (o : RequirementCourseOption). IsKnown rows.courses o.course_id) rows.options
  pub ranked : All (λ (n : RequirementNode). IsBelow rank n.id n.parent_id) rows.nodes
  pub low : All (λ (n : RequirementNode). rank n.id < depth) rows.nodes

effective_rows-IsWellFormed :
    (rank : Uuid → ℕ) (depth : ℕ) (rows : LoadedRows)
    → IsWellFormed rank depth rows
    → IsWellFormed rank depth (effective_rows rows)
unfolding effective_rows
effective_rows-IsWellFormed rank depth rows h = record {
  transfers =
      All-filter (λ (t : TransferCredit). IsKnown? rows.courses t.equivalent_course_id) _
        rows.transfers h.transfers;
  substitutions =
      All-filter (λ (s : CourseSubstitution). IsKnown rows.courses s.substitute_course_id) _
        rows.substitutions h.substitutions;
  options = h.options;
  ranked = h.ranked;
  low = h.low;
}

module _ (rank : Uuid → ℕ) (depth : ℕ) (student program : Uuid) (mode : AuditMode)
    (policy : GradePolicy) (rows : LoadedRows) (formed : IsWellFormed rank depth rows) where
  abbrev ctx : AuditContext
  ctx = load_context student program mode policy rows

  known-Readable : (id : Uuid) → IsKnown rows.courses id → Readable ⊥ ctx id
  unfolding load_context
  known-Readable id h missing =
      lookup-by_id_from (λ (c : Course). c.id) id [] rows.courses h missing

  known-Readable? : (id : Option Uuid) → IsKnown? rows.courses id → Readable? ⊥ ctx id
  known-Readable? none h = tt
  known-Readable? (some id) h = known-Readable id h

  transfer-AtKey :
      (t : TransferCredit) (key : Option Uuid)
      → IsKnown? rows.courses t.equivalent_course_id
      → AtKey (λ _ (t : TransferCredit). Readable? ⊥ ctx t.equivalent_course_id) key t
  transfer-AtKey t none h = tt
  transfer-AtKey t (some k) h = known-Readable? t.equivalent_course_id h

  substitution-AtKey :
      (s : CourseSubstitution) (key : Option Uuid)
      → IsKnown rows.courses s.substitute_course_id
      → AtKey (λ _ (s : CourseSubstitution). Readable ⊥ ctx s.substitute_course_id) key s
  substitution-AtKey s none h = tt
  substitution-AtKey s (some k) h = known-Readable s.substitute_course_id h

  transfers-Holds :
      Holds
        (λ _ (t : TransferCredit). Readable? ⊥ ctx t.equivalent_course_id)
        (build_transfers_by_course rows.transfers)
  unfolding build_transfers_by_course
  transfers-Holds =
      group_by-Holds _ _ _ rows.transfers
        (All-map (λ t h. transfer-AtKey t t.equivalent_course_id h) rows.transfers formed.transfers)

  substitutions-Holds :
      Holds
        (λ _ (s : CourseSubstitution). Readable ⊥ ctx s.substitute_course_id)
        (build_substitutions_by_requirement rows.substitutions)
  unfolding build_substitutions_by_requirement
  substitutions-Holds = group_by-Holds _ _ _ rows.substitutions (
      All-map (λ s h. substitution-AtKey s s.requirement_node_id h) rows.substitutions
        formed.substitutions)

  options-Holds :
      Holds
        (λ _ (o : RequirementCourseOption). Readable ⊥ ctx o.course_id)
        (build_options_by_node rows.options)
  unfolding build_options_by_node
  options-Holds =
      group_by-Holds _ _ _ rows.options
        (All-map (λ o h. known-Readable o.course_id h) rows.options formed.options)

  load_context-Closed : Closed ⊥ (load_context student program mode policy rows)
  unfolding load_context
  load_context-Closed = record {
    transfers = transfers-Holds;
    substitutions = substitutions-Holds;
    options = options-Holds;
  }

  child-AtKey :
      (n : RequirementNode) (parent : Option Uuid)
      → IsBelow rank n.id parent
      → AtKey (λ id (n : RequirementNode). rank n.id < rank id) parent n
  child-AtKey n none h = tt
  child-AtKey n (some p) h = h

  load_context-IsRanked : IsRanked rank (load_context student program mode policy rows)
  unfolding load_context build_children_by_parent
  load_context-IsRanked =
      group_by-Holds (λ id (n : RequirementNode). rank n.id < rank id) _ _ rows.nodes
        (All-map (λ n h. child-AtKey n n.parent_id h) rows.nodes formed.ranked)

  abbrev Low : RequirementNode → Type 0
  Low n = rank n.id < depth

  roots-Low : All Low ctx.roots
  unfolding load_context build_roots sorted_nodes
  roots-Low = sorted-All _ Low _ (All-filter Low is_root rows.nodes formed.low)

  nodes-Low : All Low (values ctx.nodes_by_id)
  unfolding load_context
  nodes-Low = by_id_from-All _ Low [] rows.nodes tt formed.low

  initial-Consistent : Consistent (initial_state (load_warnings rows))
  unfolding lookup
  initial-Consistent id r e = cc

  context-IsComplete :
      Ends ⊥
        (evaluate_context depth ctx (initial_state (load_warnings rows)))
        (λ rep s'. IsComplete ctx (initial_state (load_warnings rows)) rep)
  context-IsComplete =
      evaluate_context-IsComplete rank ctx load_context-Closed load_context-IsRanked depth roots-Low
        nodes-Low (initial_state (load_warnings rows)) initial-Consistent

-- If the rows of a program version name only courses among them, and their nodes form an acyclic tree
-- that is less deep than the stack, then the audit returns a report of the context that is made of
-- the rows left under an active snapshot: its requirements are sorted; each node has one, whose
-- remaining courses are those required less those satisfied, and whose remaining credits are whole
-- tenths and at most a tenth away from the credits required less those satisfied; the warnings about
-- the rows stand first; and the status is `completed` exactly if there is no warning.
pub evaluate-IsComplete :
    (rank : Uuid → ℕ) (depth : ℕ) (student program : Uuid) (mode : AuditMode) (policy : GradePolicy)
    (rows : LoadedRows)
    → IsWellFormed rank depth rows
    → Ends ⊥ (evaluate depth student program mode policy (some rows)) (λ rep s'.
      IsComplete
        (load_context student program mode policy (effective_rows rows))
        (initial_state (load_warnings (effective_rows rows)))
        rep)
unfolding evaluate
evaluate-IsComplete rank depth student program mode policy rows formed =
    context-IsComplete rank depth student program mode policy (effective_rows rows)
      (effective_rows-IsWellFormed rank depth rows formed)
