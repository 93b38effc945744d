-- ===== src/DegreeAudit/Context/Eligible.antt =====
-- context.py: what the functions that make candidates return.
use smart_academic_planning.Prelude.{
  Bool, true, false, Option, none, some, List, Text, lookup, get_list, ◌≡◌, refl, ◌⊎◌, inl, inr,
  All, All-append, All-map, All-tt, if◌then◌else◌,
}
use smart_academic_planning.DegreeAudit.Records.{
  Uuid, RequirementNode, StudentCourseAttempt, StudentCourseAttemptStatus, TransferCredit, Course,
  is_approved,
}
use smart_academic_planning.DegreeAudit.Result.{WarningCode}
use smart_academic_planning.DegreeAudit.Grades.{satisfies_minimum}
use smart_academic_planning.DegreeAudit.Monad.{
  AuditState, Audit, fail, key_error, ◌>>=◌, ◌>>◌, return, collect,
}
use smart_academic_planning.DegreeAudit.Frames.{
  Ends, Ends-map, Ends-bind, OnlyWarns, OnlyWarns-refl, OnlyWarns-trans, OnlyWarns-warn, OptionAll,
  collect-Ends,
}
use smart_academic_planning.DegreeAudit.Candidates.{CourseCandidate}
use smart_academic_planning.DegreeAudit.Context.Attempts.{
  AuditContext, AttemptUse, plain_use, course_of, warn_if_some, attempt_record, attempt_by_status,
  attempt_candidate, transfer_record, transfer_grade, approved_transfer, transfer_candidate,
}
use smart_academic_planning.DegreeAudit.Context.Courses.{direct_course_candidates}

-- Exactly one of the three flags is set.
abbrev pub OneState : CourseCandidate → Type 0
OneState c =
    ((c.is_completed ≡ true) × (c.is_in_progress ≡ false) × (c.is_planned ≡ false))
    ⊎ (((c.is_completed ≡ false) × (c.is_in_progress ≡ true) × (c.is_planned ≡ false))
        ⊎ ((c.is_completed ≡ false) × (c.is_in_progress ≡ false) × (c.is_planned ≡ true)))

abbrev pub HasCourse : CourseCandidate → Type 0
HasCourse c = (id : Uuid) × (c.course_id ≡ some id)

abbrev pub IsCandidate : CourseCandidate → Type 0
IsCandidate c = HasCourse c × OneState c

abbrev pub ReturnsAll : List CourseCandidate → AuditState → AuditState → Type 0
ReturnsAll found s s' = All IsCandidate found × OnlyWarns s s'

module _ (F : Type 0) (ctx : AuditContext) where
  -- A read of a course that is not there raises `KeyError`; `Readable` says what follows.
  abbrev pub Readable : Uuid → Type 0
  Readable id = lookup id ctx.courses_by_id ≡ none → F

  abbrev pub Readable? : Option Uuid → Type 0
  Readable? none = Unit
  Readable? (some id) = Readable id

  -- What closes the reads of the attempts and transfers of a course.
  abbrev pub ReadableTransfers : Uuid → Type 0
  ReadableTransfers id =
      All (λ (t : TransferCredit). Readable? t.equivalent_course_id)
        (get_list id ctx.transfers_by_course)

module _ (F : Type 0) (ctx : AuditContext) (node : RequirementNode) where
  abbrev Returns : Option CourseCandidate → AuditState → AuditState → Type 0
  Returns found s s' = OptionAll IsCandidate found × OnlyWarns s s'

  pub course_of-Ends :
      (id : Uuid)
      → Readable F ctx id
      → (s : AuditState) → Ends F (course_of ctx id s) (λ _ s'. OnlyWarns s s')
  unfolding course_of
  course_of-Ends id h s = go (lookup id ctx.courses_by_id) h
    where
      go :
          (o : Option Course)
          → (o ≡ none → F)
          → Ends F
              ((elim o as (λ _. Audit Course) [ none ↦ fail key_error | some c ↦ return c ]) s)
              (λ _ s'. OnlyWarns s s')
      go none h = h refl
      go (some c) h = OnlyWarns-refl s

  -- Behind a grade test: its warning, and the candidate if it passes.
  graded-Ends :
      (code : Option WarningCode) (passes : Bool) (c : CourseCandidate) (s : AuditState)
      → IsCandidate c
      → Ends F
          ((warn_if_some code node.id >> return (if passes then some c else none)) s)
          (λ found s'. Returns found s s')
  graded-Ends none true c s h = (h, OnlyWarns-refl s)
  graded-Ends none false c s h = (tt, OnlyWarns-refl s)
  graded-Ends (some code) true c s h = (h, OnlyWarns-warn _ s)
  graded-Ends (some code) false c s h = (tt, OnlyWarns-warn _ s)

  attempt_by_status-Ends :
      (status : StudentCourseAttemptStatus) (a : StudentCourseAttempt) (id : Uuid)
      (minimum : Option Text) (how : AttemptUse) (course : Course) (s : AuditState)
      → Ends F
          (attempt_by_status status ctx node a id minimum how course s)
          (λ found s'. Returns found s s')
  unfolding attempt_by_status attempt_record
  attempt_by_status-Ends StudentCourseAttemptStatus.completed a id minimum how course s =
      let decision = satisfies_minimum ctx.grade_policy a.grade minimum in
      graded-Ends decision.warning_code decision.is_satisfied _ s
        ((id, refl), inl (refl, refl, refl))
  attempt_by_status-Ends StudentCourseAttemptStatus.in_progress a id minimum how course s =
      (((id, refl), inr (inl (refl, refl, refl))), OnlyWarns-refl s)
  attempt_by_status-Ends StudentCourseAttemptStatus.planned a id minimum how course s =
      (((id, refl), inr (inr (refl, refl, refl))), OnlyWarns-refl s)
  attempt_by_status-Ends StudentCourseAttemptStatus.incomplete a id minimum how course s =
      (tt, OnlyWarns-warn _ s)
  attempt_by_status-Ends _ a id minimum how course s = (tt, OnlyWarns-refl s)

  attempt_candidate-Ends :
      (a : StudentCourseAttempt) (id : Uuid) (minimum : Option Text) (how : AttemptUse)
      → Readable F ctx id
      → (s : AuditState)
      → Ends F (attempt_candidate ctx node a id minimum how s) (λ found s'. Returns found s s')
  unfolding attempt_candidate
  attempt_candidate-Ends a id minimum how h s =
      Ends-bind F _ _ (course_of ctx id) _ s (course_of-Ends id h s) λ course s₁ w.
        Ends-map F (λ found. Returns found s₁) (λ found. Returns found s)
          (attempt_by_status a.status ctx node a id minimum how course s₁)
          (attempt_by_status-Ends a.status a id minimum how course s₁)
          (λ found s₂ r. (r.0, OnlyWarns-trans w r.1))

  transfer_grade-Ends :
      (t : TransferCredit) (minimum : Option Text) (s : AuditState)
      → Ends F (transfer_grade ctx node t minimum s) (λ _ s'. OnlyWarns s s')
  unfolding transfer_grade
  transfer_grade-Ends t none s = OnlyWarns-refl s
  transfer_grade-Ends t (some m) s =
      go (satisfies_minimum ctx.grade_policy t.grade (some m)).warning_code
    where
      go :
          (code : Option WarningCode)
          → Ends F
              ((warn_if_some code node.id
                  >> return (satisfies_minimum ctx.grade_policy t.grade (some m)).is_satisfied)
                s)
              (λ _ s'. OnlyWarns s s')
      go none = OnlyWarns-refl s
      go (some code) = OnlyWarns-warn _ s

  approved_transfer-Ends :
      (target : Option Uuid) (t : TransferCredit) (minimum : Option Text)
      → Readable? F ctx target
      → (s : AuditState)
      → Ends F (approved_transfer target ctx node t minimum s) (λ found s'. Returns found s s')
  unfolding approved_transfer transfer_record
  approved_transfer-Ends none t minimum h s = (tt, OnlyWarns-warn _ s)
  approved_transfer-Ends (some id) t minimum h s =
      Ends-bind F _ _ (transfer_grade ctx node t minimum) _ s (transfer_grade-Ends t minimum s) go
    where
      go :
          (passes : Bool) (s₁ : AuditState)
          → OnlyWarns s s₁
          → Ends F
              ((if passes
                  then (course_of ctx id >>= λ course. return (some (transfer_record t id course)))
                  else return none)
                s₁)
              (λ found s'. Returns found s s')
      go true s₁ w =
          Ends-bind F _ _ (course_of ctx id) _ s₁ (course_of-Ends id h s₁)
            λ course s₂ w₂. (((id, refl), inl (refl, refl, refl)), OnlyWarns-trans w w₂)
      go false s₁ w = (tt, w)

  transfer_candidate-Ends :
      (t : TransferCredit) (minimum : Option Text)
      → Readable? F ctx t.equivalent_course_id
      → (s : AuditState)
      → Ends F (transfer_candidate ctx node t minimum s) (λ found s'. Returns found s s')
  unfolding transfer_candidate
  transfer_candidate-Ends t minimum h s = go (is_approved t.status)
    where
      go :
          (approved : Bool)
          → Ends F
              ((if approved
                  then approved_transfer t.equivalent_course_id ctx node t minimum
                  else return none)
                s)
              (λ found s'. Returns found s s')
      go true = approved_transfer-Ends t.equivalent_course_id t minimum h s
      go false = (tt, OnlyWarns-refl s)

  pub attempts-Ends :
      (id : Uuid) (minimum : Option Text) (how : AttemptUse) (records : List StudentCourseAttempt)
      → Readable F ctx id
      → (s : AuditState)
      → Ends F
          (collect (λ a. attempt_candidate ctx node a id minimum how) records s)
          (λ found s'. ReturnsAll found s s')
  attempts-Ends id minimum how records h =
      collect-Ends F IsCandidate _ records
        (All-map (λ a _. attempt_candidate-Ends a id minimum how h) records (All-tt records))

  pub direct-Ends :
      (id : Uuid) (minimum : Option Text)
      → Readable F ctx id
      → ReadableTransfers F ctx id
      → (s : AuditState)
      → Ends F (direct_course_candidates ctx node id minimum s) (λ found s'. ReturnsAll found s s')
  unfolding direct_course_candidates
  direct-Ends id minimum h k s =
      Ends-bind F _ _ (collect _ (get_list id ctx.attempts_by_course)) _ s
        (attempts-Ends id minimum plain_use _ h s)
        λ attempts s₁ p.
          Ends-bind F _ _ (collect _ (get_list id ctx.transfers_by_course)) _ s₁
            (collect-Ends F IsCandidate _ _
              (All-map (λ t r. transfer_candidate-Ends t minimum r) _ k) s₁)
            λ transfers s₂ q.
              (All-append IsCandidate attempts transfers p.0 q.0, OnlyWarns-trans p.1 q.1)
