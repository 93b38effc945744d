-- ===== src/DegreeAudit/Evaluators/Parents.antt =====
-- engine.py: `AllOfEvaluator`, `GroupEvaluator`, `AnyOfEvaluator` and `ManualReviewEvaluator`, over
-- the call `evaluate_node` that the engine hands them.
use smart_academic_planning.Prelude.{
  Bool, List, [], ◌∷◌, get_list, map, sum_by, flat_map_by, sorted,
}
use smart_academic_planning.DegreeAudit.Keys.{id_leb}
use smart_academic_planning.DegreeAudit.Records.{RequirementNode}
use smart_academic_planning.DegreeAudit.Result.{
  RequirementResult, unsupported_requirement_scope, requirement_configuration_incomplete,
}
use smart_academic_planning.DegreeAudit.Monad.{Audit, return, ◌>>=◌}
use smart_academic_planning.DegreeAudit.Context.{AuditContext}
use smart_academic_planning.DegreeAudit.Status.{
  all_of_status, any_of_status, status_rank, sum_optional,
}
use smart_academic_planning.DegreeAudit.Evaluators.Base.{manual_review, result}

abbrev pub EvaluateNode : Type 0
EvaluateNode = RequirementNode → Audit RequirementResult

-- `[evaluate_node(child) for child in children]`
unfoldable pub evaluate_children :
    EvaluateNode → List RequirementNode → Audit (List RequirementResult)
evaluate_children evaluate_node [] = return []
evaluate_children evaluate_node (child ∷ children) = do
  r ← evaluate_node child
  rest ← evaluate_children evaluate_node children
  return (r ∷ rest)

-- The results of no children ask for a manual review.
unfoldable pub all_of_result : RequirementNode → List RequirementResult → RequirementResult
all_of_result node [] = manual_review node requirement_configuration_incomplete
all_of_result node (r ∷ rs) =
    let children = r ∷ rs in
    result node (record {
      status = all_of_status (map (λ c. c.status) children);
      required_credits = sum_optional (map (λ c. c.required_credits) children);
      satisfied_credits = sum_by (λ c. c.satisfied_credits) children;
      required_courses = sum_optional (map (λ c. c.required_courses) children);
      satisfied_courses = sum_by (λ c. c.satisfied_courses) children;
      applications = [];
      warnings = flat_map_by (λ c. c.warnings) children;
    })

-- The key of `sorted(children, ...)`: (status_rank, display_order).
unfoldable pub child_leb : RequirementResult → RequirementResult → Bool
child_leb x y =
    id_leb (status_rank x.status, x.display_order) (status_rank y.status, y.display_order)

-- `sorted(...)[0]` of a list that is not empty.
unfoldable pub first_or : RequirementResult → List RequirementResult → RequirementResult
first_or r [] = r
first_or r (x ∷ xs) = x

unfoldable pub best_child : RequirementResult → List RequirementResult → RequirementResult
best_child r rs = first_or r (sorted child_leb (r ∷ rs))

unfoldable pub any_of_result : RequirementNode → List RequirementResult → RequirementResult
any_of_result node [] = manual_review node requirement_configuration_incomplete
any_of_result node (r ∷ rs) =
    let best = best_child r rs in
    result node (record {
      status = any_of_status (map (λ c. c.status) (r ∷ rs));
      required_credits = best.required_credits;
      satisfied_credits = best.satisfied_credits;
      required_courses = best.required_courses;
      satisfied_courses = best.satisfied_courses;
      applications = [];
      warnings = flat_map_by (λ c. c.warnings) (r ∷ rs);
    })

module _ (evaluate_node : EvaluateNode) (ctx : AuditContext) (node : RequirementNode) where
  unfoldable pub all_of : Audit RequirementResult
  all_of = do
    children ← evaluate_children evaluate_node (get_list node.id ctx.children_by_parent)
    return (all_of_result node children)

  unfoldable pub any_of : Audit RequirementResult
  any_of = do
    children ← evaluate_children evaluate_node (get_list node.id ctx.children_by_parent)
    return (any_of_result node children)

unfoldable pub manual_review_only : RequirementNode → Audit RequirementResult
manual_review_only node = return (manual_review node unsupported_requirement_scope)
