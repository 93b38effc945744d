-- ===== src/DegreeAudit/Engine/Registry.antt =====
-- engine.py: the registry's dispatch, and the memoised recursion `evaluate_node` of `evaluate`.
-- The parents of the nodes come from a table that forbids only a node that is its own parent, so
-- the recursion runs on fuel, which stands for Python's stack.
use smart_academic_planning.Prelude.{
  ℕ, zero, suc, none, some, List, [], ◌∷◌, lookup, assign, values,
}
use smart_academic_planning.DegreeAudit.Records.{Uuid, RequirementNode, RequirementType}
use smart_academic_planning.DegreeAudit.Result.{RequirementResult}
use smart_academic_planning.DegreeAudit.Monad.{
  Audit, ok, recursion_error, fail, return, ◌>>=◌, ◌>>◌,
}
use smart_academic_planning.DegreeAudit.Context.{AuditContext}
use smart_academic_planning.DegreeAudit.Evaluators.{
  EvaluateNode, all_of, any_of, manual_review_only, required_course, choose_n, minimum_credits,
  minimum_courses, course_level, residency, total_credits,
}

-- `self._evaluators[node.requirement_type].evaluate(node, context, evaluate_node, allocator)`
unfoldable pub dispatch :
    RequirementType → EvaluateNode → AuditContext → RequirementNode → Audit RequirementResult
dispatch RequirementType.group rec ctx node = all_of rec ctx node
dispatch RequirementType.all_of rec ctx node = all_of rec ctx node
dispatch RequirementType.any_of rec ctx node = any_of rec ctx node
dispatch RequirementType.required_course rec ctx node = required_course ctx node
dispatch RequirementType.capstone rec ctx node = required_course ctx node
dispatch RequirementType.choose_n rec ctx node = choose_n ctx node
dispatch RequirementType.minimum_credits rec ctx node = minimum_credits ctx node
dispatch RequirementType.minimum_courses rec ctx node = minimum_courses ctx node
dispatch RequirementType.course_level rec ctx node = course_level ctx node
dispatch RequirementType.residency rec ctx node = residency ctx node
dispatch RequirementType.total_credits rec ctx node = total_credits ctx node
dispatch RequirementType.minimum_grade rec ctx node = manual_review_only node
dispatch RequirementType.exclusion rec ctx node = manual_review_only node

-- `evaluated[node.id] = result`
unfoldable pub store : Uuid → RequirementResult → Audit RequirementResult
store id r s = ok r (record s { evaluated = assign id r s.evaluated })

unfoldable pub evaluate_new :
    EvaluateNode → AuditContext → RequirementNode → Audit RequirementResult
evaluate_new rec ctx node = do r ← dispatch node.requirement_type rec ctx node; store node.id r

-- One call of `evaluate_node`, over the calls that it makes for the children.
unfoldable pub evaluate_once :
    EvaluateNode → AuditContext → RequirementNode → Audit RequirementResult
evaluate_once rec ctx node s = elim (lookup node.id s.evaluated) [
  | some r ↦ ok r s
  | none ↦ evaluate_new rec ctx node s
]

unfoldable pub evaluate_node : ℕ → AuditContext → RequirementNode → Audit RequirementResult
evaluate_node zero ctx node = fail recursion_error
evaluate_node (suc depth) ctx node = evaluate_once (evaluate_node depth ctx) ctx node

-- A loop of `evaluate` over nodes.
unfoldable pub evaluate_nodes : ℕ → AuditContext → List RequirementNode → Audit (Unit {0})
evaluate_nodes depth ctx [] = return tt
evaluate_nodes depth ctx (n ∷ ns) = do _ ← evaluate_node depth ctx n; evaluate_nodes depth ctx ns

-- The two loops: the roots, and then every node.
unfoldable pub evaluate_all : ℕ → AuditContext → Audit (Unit {0})
evaluate_all depth ctx = do
  evaluate_nodes depth ctx ctx.roots
  evaluate_nodes depth ctx (values ctx.nodes_by_id)
