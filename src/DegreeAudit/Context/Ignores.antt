-- ===== src/DegreeAudit/Context/Ignores.antt =====
-- context.py: `all_course_candidates` from states with different reservations.
use smart_academic_planning.Prelude.{
  Bool, true, false, Option, none, some, List, [], ◌∷◌, lookup, Text, if◌then◌else◌, ◌≡◌, refl, ap,
  ◌∙◌,
}
use smart_academic_planning.DegreeAudit.Records.{
  Uuid, Course, RequirementNode, StudentCourseAttempt, StudentCourseAttemptStatus, TransferCredit,
  is_approved,
}
use smart_academic_planning.DegreeAudit.Result.{SourceKey, WarningCode}
use smart_academic_planning.DegreeAudit.Grades.{satisfies_minimum}
use smart_academic_planning.DegreeAudit.Monad.{
  AuditState, Audit, Outcome, ok, raise, fail, key_error, return, ◌>>=◌, ◌>>◌, collect, gather,
}
use smart_academic_planning.DegreeAudit.Context.Attempts.{
  AuditContext, AttemptUse, plain_use, course_of, warn_if_some, attempt_by_status,
  attempt_candidate, transfer_record, transfer_grade, approved_transfer, transfer_candidate,
}
use smart_academic_planning.DegreeAudit.Context.Courses.{
  direct_course_candidates, all_course_candidates,
}

-- The state with other sources reserved.
abbrev pub reserving : List SourceKey → AuditState → AuditState
reserving used s = record s { used_sources = used }

abbrev pub end_reserving : {A : Type 0} → List SourceKey → Outcome A → Outcome A
end_reserving used (ok a s) = ok a (reserving used s)
end_reserving used (raise e) = raise e

-- From a state with other reservations the step ends the same way, with those reservations.
abbrev pub Ignores : {A : Type 0} → Audit A → Type 0
Ignores m =
    (s : AuditState) (used : List SourceKey) → m (reserving used s) ≡ end_reserving used (m s)

pub Ignores-bind :
    {A B : Type 0} (m : Audit A) (f : A → Audit B)
    → Ignores m
    → ((a : A) → Ignores (f a))
    → Ignores (m >>= f)
Ignores-bind {A} {B} m f h k s used = go (m s) (h s used)
  where
    next : Outcome A → Outcome B
    next o = elim o as (λ _. Outcome B) [ ok a s' ↦ f a s' | raise e ↦ raise e ]

    go :
        (o : Outcome A)
        → m (reserving used s) ≡ end_reserving used o
        → (m >>= f) (reserving used s)
          ≡ end_reserving used (elim o as (λ _. Outcome B) [ ok a s' ↦ f a s' | raise e ↦ raise e ])
    go (ok a s') e = ap next e ∙ k a s' used
    go (raise x) e = ap next e

collect-Ignores :
    {A B : Type 0} (f : A → Audit (Option B)) (xs : List A)
    → ((a : A) → Ignores (f a))
    → Ignores (collect f xs)
unfolding collect
collect-Ignores f [] h = λ s used. refl
collect-Ignores f (x ∷ xs) h =
    Ignores-bind (f x) _ (h x)
      λ found. Ignores-bind (collect f xs) _ (collect-Ignores f xs h) λ rest s used. refl

gather-Ignores :
    {A B : Type 0} (f : A → Audit (List B)) (xs : List A)
    → ((a : A) → Ignores (f a))
    → Ignores (gather f xs)
unfolding gather
gather-Ignores f [] h = λ s used. refl
gather-Ignores f (x ∷ xs) h =
    Ignores-bind (f x) _ (h x)
      λ found. Ignores-bind (gather f xs) _ (gather-Ignores f xs h) λ rest s used. refl

module _ (ctx : AuditContext) (node : RequirementNode) where
  course_of-Ignores : (id : Uuid) → Ignores (course_of ctx id)
  unfolding course_of
  course_of-Ignores id = go (lookup id ctx.courses_by_id)
    where
      go :
          (o : Option Course)
          → Ignores (elim o as (λ _. Audit Course) [ none ↦ fail key_error | some c ↦ return c ])
      go none = λ s used. refl
      go (some c) = λ s used. refl

  graded-Ignores :
      {B : Type 0} (code : Option WarningCode) (b : B)
      → Ignores (warn_if_some code node.id >> return b)
  graded-Ignores none b = λ s used. refl
  graded-Ignores (some code) b = λ s used. refl

  attempt_by_status-Ignores :
      (status : StudentCourseAttemptStatus) (a : StudentCourseAttempt) (id : Uuid)
      (minimum : Option Text) (how : AttemptUse) (course : Course)
      → Ignores (attempt_by_status status ctx node a id minimum how course)
  unfolding attempt_by_status
  attempt_by_status-Ignores StudentCourseAttemptStatus.completed a id minimum how course =
      graded-Ignores (satisfies_minimum ctx.grade_policy a.grade minimum).warning_code _
  attempt_by_status-Ignores StudentCourseAttemptStatus.in_progress a id minimum how course =
      λ s used. refl
  attempt_by_status-Ignores StudentCourseAttemptStatus.planned a id minimum how course =
      λ s used. refl
  attempt_by_status-Ignores StudentCourseAttemptStatus.incomplete a id minimum how course =
      λ s used. refl
  attempt_by_status-Ignores _ a id minimum how course = λ s used. refl

  attempt_candidate-Ignores :
      (a : StudentCourseAttempt) (id : Uuid) (minimum : Option Text) (how : AttemptUse)
      → Ignores (attempt_candidate ctx node a id minimum how)
  unfolding attempt_candidate
  attempt_candidate-Ignores a id minimum how =
      Ignores-bind (course_of ctx id) _ (course_of-Ignores id)
        (attempt_by_status-Ignores a.status a id minimum how)

  transfer_grade-Ignores :
      (t : TransferCredit) (minimum : Option Text) → Ignores (transfer_grade ctx node t minimum)
  unfolding transfer_grade
  transfer_grade-Ignores t none = λ s used. refl
  transfer_grade-Ignores t (some m) =
      graded-Ignores (satisfies_minimum ctx.grade_policy t.grade (some m)).warning_code _

  approved_transfer-Ignores :
      (target : Option Uuid) (t : TransferCredit) (minimum : Option Text)
      → Ignores (approved_transfer target ctx node t minimum)
  unfolding approved_transfer
  approved_transfer-Ignores none t minimum = λ s used. refl
  approved_transfer-Ignores (some id) t minimum =
      Ignores-bind (transfer_grade ctx node t minimum) _ (transfer_grade-Ignores t minimum) go
    where
      go :
          (passes : Bool)
          → Ignores (
              if passes
              then (course_of ctx id >>= λ course. return (some (transfer_record t id course)))
              else return none)
      go true = Ignores-bind (course_of ctx id) _ (course_of-Ignores id) λ course s used. refl
      go false = λ s used. refl

  transfer_candidate-Ignores :
      (t : TransferCredit) (minimum : Option Text) → Ignores (transfer_candidate ctx node t minimum)
  unfolding transfer_candidate
  transfer_candidate-Ignores t minimum = go (is_approved t.status)
    where
      go :
          (approved : Bool)
          → Ignores (
              if approved
              then approved_transfer t.equivalent_course_id ctx node t minimum
              else return none)
      go true = approved_transfer-Ignores t.equivalent_course_id t minimum
      go false = λ s used. refl

  direct-Ignores :
      (id : Uuid) (minimum : Option Text) → Ignores (direct_course_candidates ctx node id minimum)
  unfolding direct_course_candidates
  direct-Ignores id minimum =
      Ignores-bind (collect _ _) _
        (collect-Ignores _ _ λ a. attempt_candidate-Ignores a id minimum plain_use)
        λ attempts.
          Ignores-bind (collect _ _) _
            (collect-Ignores _ _ λ t. transfer_candidate-Ignores t minimum) λ transfers s used. refl

  pub all_course_candidates-Ignores :
      (minimum : Option Text) → Ignores (all_course_candidates ctx node minimum)
  unfolding all_course_candidates
  all_course_candidates-Ignores minimum =
      Ignores-bind (gather _ _) _ (gather-Ignores _ _ λ id. direct-Ignores id minimum)
        λ found s used. refl
