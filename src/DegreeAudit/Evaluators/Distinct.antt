-- ===== src/DegreeAudit/Evaluators/Distinct.antt =====
-- engine.py: `select_distinct_candidates` and the loop of `ChooseNEvaluator`.
use smart_academic_planning.Prelude.{
  ℕ, zero, suc, Bool, true, false, Option, none, some, List, [], ◌∷◌, ◌≡◌, ◌≢◌, refl, ◌⊎◌, inl, inr,
  All, All-map, All-map₂, IsSorted, sorted-All_inv, All-middle, ◌++◌, take, arith,
}
use smart_academic_planning.DegreeAudit.Records.{Uuid}
use smart_academic_planning.DegreeAudit.Result.{SourceKey}
use smart_academic_planning.DegreeAudit.Allocator.{is_available}
use smart_academic_planning.DegreeAudit.Candidates.{CourseCandidate, candidate_leb, sort_candidates}
use smart_academic_planning.DegreeAudit.Candidates.Order.{
  candidate_leb_refl, sort_candidates-IsSorted,
}
use smart_academic_planning.DegreeAudit.Context.{is_seen, note_course}
use smart_academic_planning.DegreeAudit.Evaluators.Selection.{
  passed_over, select_distinct, select_distinct_candidates, choose,
}

-- The candidate has no course, or a course that is not in the list.
abbrev pub IsNew : List Uuid → CourseCandidate → Type 0
IsNew seen c = (id : Uuid) → c.course_id ≡ some id → is_seen id seen ≡ false

abbrev SameCourse : CourseCandidate → CourseCandidate → Type 0
SameCourse x c = (id : Uuid) × (x.course_id ≡ some id) × (c.course_id ≡ some id)

-- No two candidates of the list have the same course.
abbrev pub DistinctCourses : List CourseCandidate → Type 0
DistinctCourses [] = Unit
DistinctCourses (x ∷ xs) = All (λ c. ¬ SameCourse x c) xs × DistinctCourses xs

-- After a course is noted, a new candidate is new before it and has another course.
noted :
    (course : Option Uuid) (seen : List Uuid) (x : CourseCandidate)
    → IsNew (note_course course seen) x
    → IsNew seen x × ((id : Uuid) → course ≡ some id → x.course_id ≢ some id)
unfolding is_seen
noted none seen x new = (new, λ id e. cc)
noted (some j) seen x new =
    (λ id e. ground (arith, new id e), λ id e same. ground (arith, new id same))

module _ (used : List SourceKey) (overlap : Bool) where
  abbrev pub IsFree : CourseCandidate → Type 0
  IsFree c = is_available used c.source_key overlap ≡ true

  taken :
      (seen : List Uuid) (c : CourseCandidate)
      → passed_over used overlap seen c ≡ false
      → IsNew seen c × IsFree c
  unfolding passed_over
  taken seen c h = (λ id e. ground arith, ground arith)

  -- A free candidate is passed over only for its course.
  course_seen :
      (seen : List Uuid) (c : CourseCandidate)
      → passed_over used overlap seen c ≡ true
      → IsFree c
      → (id : Uuid) × (c.course_id ≡ some id) × (is_seen id seen ≡ true)
  unfolding passed_over
  course_seen seen c h free = ground arith

  -- Each selected candidate is free and has a new course.
  selected :
      (cs : List CourseCandidate) (seen : List Uuid)
      → All (λ x. IsNew seen x × IsFree x) (select_distinct used overlap seen cs)
  unfolding select_distinct
  selected [] seen = tt
  selected (c ∷ cs) seen = go (passed_over used overlap seen c) refl (selected cs)
    where
      go :
          (b : Bool)
          → passed_over used overlap seen c ≡ b
          → ((seen : List Uuid)
              → All (λ x. IsNew seen x × IsFree x) (select_distinct used overlap seen cs))
          → All
              (λ x. IsNew seen x × IsFree x)
              (elim b as (λ _. List CourseCandidate) [
                | true ↦ select_distinct used overlap seen cs
                | false ↦ c ∷ select_distinct used overlap (note_course c.course_id seen) cs
              ])
      go true e rec = rec seen
      go false e rec = (
        taken seen c e,
        All-map (λ x h. ((noted c.course_id seen x h.0).0, h.1)) _
            (rec (note_course c.course_id seen)),
      )

  distinct :
      (cs : List CourseCandidate) (seen : List Uuid)
      → DistinctCourses (select_distinct used overlap seen cs)
  unfolding select_distinct
  distinct [] seen = tt
  distinct (c ∷ cs) seen = go (passed_over used overlap seen c) (distinct cs)
    where
      go :
          (b : Bool)
          → ((seen : List Uuid) → DistinctCourses (select_distinct used overlap seen cs))
          → DistinctCourses (elim b as (λ _. List CourseCandidate) [
            | true ↦ select_distinct used overlap seen cs
            | false ↦ c ∷ select_distinct used overlap (note_course c.course_id seen) cs
          ])
      go true rec = rec seen
      go false rec = (
        All-map (λ x h same. (noted c.course_id seen x h.0).1 same.0 same.1 same.2) _
            (selected cs (note_course c.course_id seen)),
        rec (note_course c.course_id seen),
      )

  -- The loop that stops after n candidates takes the first n of those that the other loop takes.
  pub choose-eq-take :
      (n : ℕ) (seen : List Uuid) (cs : List CourseCandidate)
      → choose n used overlap seen cs ≡ take n (select_distinct used overlap seen cs)
  unfolding choose select_distinct
  choose-eq-take zero seen cs = refl
  choose-eq-take (suc n) seen [] = refl
  choose-eq-take (suc n) seen (c ∷ cs) =
      ground
        (arith, choose-eq-take (suc n) seen cs, choose-eq-take n (note_course c.course_id seen) cs)

-- A candidate of the course in the list, which the order puts no later than the given one.
abbrev pub HasBest : Uuid → CourseCandidate → List CourseCandidate → Type 0
HasBest id c [] = ⊥
HasBest id c (x ∷ xs) = ((x.course_id ≡ some id) × (candidate_leb x c ≡ true)) ⊎ HasBest id c xs

seen_or_kept :
    (course : Option Uuid) (seen : List Uuid) (id : Uuid)
    → is_seen id (note_course course seen) ≡ true
    → (course ≡ some id) ⊎ (is_seen id seen ≡ true)
unfolding is_seen
seen_or_kept none seen id h = inr h
seen_or_kept (some j) seen id h = ground arith

module _ (used : List SourceKey) (overlap : Bool) where
  -- The course of a free candidate has a selected candidate as good, unless it was seen before.
  abbrev IsCovered : List Uuid → List CourseCandidate → CourseCandidate → Type 0
  IsCovered seen result c =
      IsFree used overlap c
      → (id : Uuid) → c.course_id ≡ some id
      → (is_seen id seen ≡ true) ⊎ HasBest id c result

  IsCovered-later :
      (seen : List Uuid) (c : CourseCandidate) (result : List CourseCandidate) (x : CourseCandidate)
      → candidate_leb c x ≡ true
      → IsCovered (note_course c.course_id seen) result x
      → IsCovered seen (c ∷ result) x
  IsCovered-later seen c result x le h free id e = elim (h free id e) [
    | inr rep ↦ inr (inr rep)
    | inl noted ↦ elim (seen_or_kept c.course_id seen id noted) [
      | inl same ↦ inr (inl (same, le))
      | inr old ↦ inl old
    ]
  ]

  covered :
      (cs : List CourseCandidate) (seen : List Uuid)
      → IsSorted candidate_leb cs
      → All (IsCovered seen (select_distinct used overlap seen cs)) cs
  unfolding select_distinct
  covered [] seen h = tt
  covered (c ∷ cs) seen h = go (passed_over used overlap seen c) refl (λ seen. covered cs seen h.1)
    where
      go :
          (b : Bool)
          → passed_over used overlap seen c ≡ b
          → ((seen : List Uuid) → All (IsCovered seen (select_distinct used overlap seen cs)) cs)
          → All
              (IsCovered seen (elim b as (λ _. List CourseCandidate) [
                | true ↦ select_distinct used overlap seen cs
                | false ↦ c ∷ select_distinct used overlap (note_course c.course_id seen) cs
              ]))
              (c ∷ cs)
      go true e rec =
          (λ free id same. ground (arith, course_seen used overlap seen c e free), rec seen)
      go false e rec = (
        λ free id same. inr (inl (same, candidate_leb_refl c)),
        All-map₂ {P = λ x. candidate_leb c x ≡ true}
            {Q = IsCovered (note_course c.course_id seen)
              (select_distinct used overlap (note_course c.course_id seen) cs)}
            (IsCovered-later seen c _) cs h.0 (rec (note_course c.course_id seen)),
      )

-- The selection from any list of candidates has no course twice, and each selected candidate is
-- available.
pub select_distinct_candidates-distinct :
    (used : List SourceKey) (overlap : Bool) (cs : List CourseCandidate)
    → DistinctCourses (select_distinct_candidates used overlap cs)
      × All (IsFree used overlap) (select_distinct_candidates used overlap cs)
unfolding select_distinct_candidates
select_distinct_candidates-distinct used overlap cs =
    let sorted_cs = sort_candidates cs in
    (
      distinct used overlap sorted_cs [],
      All-map (λ _ h. h.1) _ (selected used overlap sorted_cs []),
    )

-- For each candidate that is available and has a course, at whatever place in the list, the selection
-- has a candidate of that course whose sort key is no larger.
pub select_distinct_candidates-best :
    (used : List SourceKey) (overlap : Bool) (before : List CourseCandidate) (c : CourseCandidate)
    (after : List CourseCandidate) (id : Uuid)
    → is_available used c.source_key overlap ≡ true
    → c.course_id ≡ some id
    → HasBest id c (select_distinct_candidates used overlap (before ++ c ∷ after))
unfolding select_distinct_candidates sort_candidates
select_distinct_candidates-best used overlap before c after id free e =
    let cs = before ++ c ∷ after in
    let found =
      sorted_inv cs (covered used overlap (sort_candidates cs) [] (sort_candidates-IsSorted cs)) in
    elim (All-middle _ before c after found free id e) [
      | inl noted ↦ absurd (unfold is_seen in cc)
      | inr best ↦ best
    ]
  where
    sorted_inv :
        (cs : List CourseCandidate)
        → All
            (IsCovered used overlap [] (select_distinct used overlap [] (sort_candidates cs)))
            (sort_candidates cs)
        → All (IsCovered used overlap [] (select_distinct used overlap [] (sort_candidates cs))) cs
    sorted_inv cs = sorted-All_inv candidate_leb _ cs
