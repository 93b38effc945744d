-- ===== src/DegreeAudit/Context/Closed.antt =====
-- The lists of candidates that the evaluators ask for, in a context whose references are closed:
-- each course that a transfer, a substitution or an option names is in `courses_by_id`.
use smart_academic_planning.Prelude.{
  Option, Text, keys, get_list, ◌≢◌, none, lookup, All, All-append, All-filter, All-map, All-tt,
  All-get_list, lookup-keys, leb, sorted, sorted-All,
}
use smart_academic_planning.DegreeAudit.Records.{
  Uuid, RequirementNode, RequirementCourseOption, TransferCredit, CourseSubstitution,
}
use smart_academic_planning.DegreeAudit.Monad.{AuditState, gather}
use smart_academic_planning.DegreeAudit.Frames.{Ends, Ends-bind, OnlyWarns-trans, gather-Ends}
use smart_academic_planning.DegreeAudit.Candidates.{sort_candidates, candidate_leb}
use smart_academic_planning.DegreeAudit.Context.Attempts.{AuditContext}
use smart_academic_planning.DegreeAudit.Context.Courses.{
  direct_course_candidates, equivalency_candidates, substitution_use, applicable,
  substitution_candidates, course_candidates, all_course_candidates,
}
use smart_academic_planning.DegreeAudit.Context.Eligible.{
  IsCandidate, Readable, Readable?, ReadableTransfers, ReturnsAll, attempts-Ends, direct-Ends,
}

-- With `F` the empty type: no read of a course can fail. With `F` the unit type it says nothing.
pub record Closed (F : Type 0) (ctx : AuditContext) : Type 0 where
  pub transfers :
      All
        (λ e. All (λ (t : TransferCredit). Readable? F ctx t.equivalent_course_id) e.1)
        ctx.transfers_by_course
  pub substitutions :
      All
        (λ e. All (λ (sub : CourseSubstitution). Readable F ctx sub.substitute_course_id) e.1)
        ctx.substitutions_by_requirement
  pub options :
      All
        (λ e. All (λ (o : RequirementCourseOption). Readable F ctx o.course_id) e.1)
        ctx.options_by_node

module _ (F : Type 0) (ctx : AuditContext) (node : RequirementNode) (closed : Closed F ctx) where
  transfers_of : (id : Uuid) → ReadableTransfers F ctx id
  transfers_of id = All-get_list _ id ctx.transfers_by_course closed.transfers

  equivalency-Ends :
      (id : Uuid) (minimum : Option Text)
      → Readable F ctx id
      → (s : AuditState)
      → Ends F (equivalency_candidates ctx node id minimum s) (λ found s'. ReturnsAll found s s')
  unfolding equivalency_candidates
  equivalency-Ends id minimum h =
      let found = get_list id ctx.equivalencies_by_equivalent in
      gather-Ends F IsCandidate _ found
        (All-map (λ _ _. attempts-Ends F ctx node id minimum _ _ h) found (All-tt found))

  substitution-Ends :
      (id : Uuid) (minimum : Option Text) (s : AuditState)
      → Ends F (substitution_candidates ctx node id minimum s) (λ found s'. ReturnsAll found s s')
  unfolding substitution_candidates
  substitution-Ends id minimum =
      let subs = get_list node.id ctx.substitutions_by_requirement in
      let readable = All-get_list _ node.id ctx.substitutions_by_requirement closed.substitutions in
      gather-Ends F IsCandidate _ _ (
        All-map
          (λ (sub : CourseSubstitution) (h : Readable F ctx sub.substitute_course_id).
            attempts-Ends F ctx node sub.substitute_course_id minimum
              (substitution_use ctx node sub) _ h)
          _ (All-filter _ (applicable ctx node id) subs readable))

  -- In a context that names only courses it has, the candidates of a course that it has are found
  -- without an error: each has a course and exactly one of the three states, and the state differs
  -- by added warnings only. For `F` the unit type the same holds of what is returned, without the
  -- promise that something is.
  pub course_candidates-Ends :
      (id : Uuid) (minimum : Option Text)
      → Readable F ctx id
      → (s : AuditState)
      → Ends F (course_candidates ctx node id minimum s) (λ found s'. ReturnsAll found s s')
  unfolding course_candidates sort_candidates
  course_candidates-Ends id minimum h s =
      Ends-bind F _ _ (direct_course_candidates ctx node id minimum) _ s
        (direct-Ends F ctx node id minimum h (transfers_of id) s)
        λ direct s₁ p.
          Ends-bind F _ _ (equivalency_candidates ctx node id minimum) _ s₁
            (equivalency-Ends id minimum h s₁)
            λ equivalent s₂ q.
              Ends-bind F _ _ (substitution_candidates ctx node id minimum) _ s₂
                (substitution-Ends id minimum s₂)
                λ substituted s₃ r. (
                  sorted-All candidate_leb IsCandidate _ (
                      All-append IsCandidate direct _ p.0
                        (All-append IsCandidate equivalent substituted q.0 r.0)),
                  OnlyWarns-trans p.1 (OnlyWarns-trans q.1 r.1),
                )

  pub all_course_candidates-Ends :
      (minimum : Option Text) (s : AuditState)
      → Ends F (all_course_candidates ctx node minimum s) (λ found s'. ReturnsAll found s s')
  unfolding all_course_candidates sort_candidates
  all_course_candidates-Ends minimum s =
      Ends-bind F _ _ (gather _ (sorted leb (keys ctx.courses_by_id))) _ s
        (gather-Ends F IsCandidate _ _
          (All-map
            (λ id (h : lookup id ctx.courses_by_id ≢ none).
              direct-Ends F ctx node id minimum (λ e. absurd (h e)) (transfers_of id))
            _ (sorted-All leb _ _ (lookup-keys ctx.courses_by_id)))
          s)
        λ found s₁ p. (sorted-All candidate_leb IsCandidate found p.0, p.1)
