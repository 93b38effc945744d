-- ===== src/DegreeAudit/Index.antt =====
-- context.py: the functions `build_*` that index the loaded rows, `sorted_nodes` and
-- `add_pending_record_warnings`. A `defaultdict(list)` is filled in the order of the rows, and
-- then each list is sorted.
pub mod Grouping
pub mod Rows
use smart_academic_planning.Prelude.{
  ℕ, Bool, true, false, not, ◌&&◌, ◌||◌, Option, none, some, List, [], ◌∷◌, ◌++◌, Text, text_eq,
  text_leb, Dict, append_to, assign, ltb, leb, ◌==◌, if◌then◌else◌, filter_by, map, sorted,
}
use smart_academic_planning.DegreeAudit.Keys.{id_leb, entry_leb}
use smart_academic_planning.DegreeAudit.Records.{
  Uuid, RequirementNode, RequirementCourseOption, StudentCourseAttempt, TransferCredit,
  CourseWaiver, CourseSubstitution, CourseEquivalency, AuditWarningSeverity, is_pending,
}
use smart_academic_planning.DegreeAudit.Result.{
  WarningCode, AuditWarningResult, pending_transfer, pending_waiver, pending_substitution,
}

-- The rows under their keys; a row whose key is `None` is passed over.
unfoldable pub group_from {ℓ} :
    {A : Type ℓ} → (A → Option Uuid) → Dict (List A) → List A → Dict (List A)
group_from key d [] = d
group_from key d (x ∷ xs) = group_from key (elim (key x) [ none ↦ d | some k ↦ append_to k x d ]) xs

unfoldable pub group_by {ℓ} :
    {A : Type ℓ} → (A → Option Uuid) → (A → A → Bool) → List A → Dict (List A)
group_by key le xs = map (λ e. (e.0, sorted le e.1)) (group_from key [] xs)

-- (display_order, code, str(id))
unfoldable pub node_leb : RequirementNode → RequirementNode → Bool
node_leb x y = entry_leb (x.display_order, x.code, x.id) (y.display_order, y.code, y.id)

unfoldable pub sorted_nodes : List RequirementNode → List RequirementNode
sorted_nodes = sorted node_leb

-- `build_children_by_parent`: the nodes under a parent, and those under `None`.
unfoldable pub build_children_by_parent : List RequirementNode → Dict (List RequirementNode)
build_children_by_parent = group_by (λ node. node.parent_id) node_leb

abbrev pub is_root : RequirementNode → Bool
is_root node = elim node.parent_id [ none ↦ true | some _ ↦ false ]

unfoldable pub build_roots : List RequirementNode → List RequirementNode
build_roots nodes = sorted_nodes (filter_by is_root nodes)

unfoldable pub build_options_by_node :
    List RequirementCourseOption → Dict (List RequirementCourseOption)
build_options_by_node =
    group_by (λ o. some o.requirement_node_id)
      (λ x y. id_leb (x.display_order, x.course_id) (y.display_order, y.course_id))

unfoldable pub build_attempts_by_course :
    List StudentCourseAttempt → Dict (List StudentCourseAttempt)
build_attempts_by_course =
    group_by (λ a. some a.course_id)
      (λ x y. id_leb (x.attempt_number, x.id) (y.attempt_number, y.id))

unfoldable pub build_transfers_by_course : List TransferCredit → Dict (List TransferCredit)
build_transfers_by_course = group_by (λ t. t.equivalent_course_id) (λ x y. leb x.id y.id)

unfoldable pub build_waivers_by_requirement : List CourseWaiver → Dict (List CourseWaiver)
build_waivers_by_requirement = group_by (λ w. w.requirement_node_id) (λ x y. leb x.id y.id)

unfoldable pub build_substitutions_by_requirement :
    List CourseSubstitution → Dict (List CourseSubstitution)
build_substitutions_by_requirement = group_by (λ s. s.requirement_node_id) (λ x y. leb x.id y.id)

unfoldable pub build_equivalencies_by_equivalent :
    List CourseEquivalency → Dict (List CourseEquivalency)
build_equivalencies_by_equivalent =
    group_by (λ e. some e.equivalent_course_id) (λ x y. leb x.id y.id)

-- A dictionary comprehension over rows that are keyed by their ids.
unfoldable pub by_id_from {ℓ} : {A : Type ℓ} → (A → Uuid) → Dict A → List A → Dict A
by_id_from id d [] = d
by_id_from id d (x ∷ xs) = by_id_from id (assign (id x) x d) xs

abbrev pub pending_warning : WarningCode → Option Uuid → AuditWarningResult
pending_warning code node_id = record {
  warning_code = code;
  severity = AuditWarningSeverity.warning;
  requires_advisor_confirmation = true;
  requirement_node_id = node_id;
}

-- The warnings that `add_pending_record_warnings` appends, in their order.
unfoldable pub pending_record_warnings :
    List TransferCredit → List CourseWaiver → List CourseSubstitution → List AuditWarningResult
pending_record_warnings transfers waivers substitutions =
    map (λ _. pending_warning pending_transfer none)
      (filter_by (λ (t : TransferCredit). is_pending t.status) transfers)
    ++ (map (λ w. pending_warning pending_waiver w.requirement_node_id)
          (filter_by (λ (w : CourseWaiver). is_pending w.status) waivers)
        ++ map (λ s. pending_warning pending_substitution s.requirement_node_id)
            (filter_by (λ (s : CourseSubstitution). is_pending s.status) substitutions))
