-- ===== src/DegreeAudit/Tests/Grades.antt =====
-- The theorems on grades, statuses and percentages, applied to concrete values.
use smart_academic_planning.Prelude.{
  ℕ, ◌/◌, List, true, ◌+◌, ◌*◌, ◌<◌, ◌≤◌, some, [], ◌∷◌, codes, upper, strip, sorted, get_list,
  filter_by, ◌≡◌, refl, leb, ◌==◌, arith,
}
use smart_academic_planning.DegreeAudit.Keys.{id_leb}
use smart_academic_planning.DegreeAudit.Records.{satisfied, in_progress, planned}
use smart_academic_planning.DegreeAudit.Grades.{
  normalized, ranked_decision, normalized_decision, satisfies_minimum,
}
use smart_academic_planning.DegreeAudit.Grades.Order.{
  satisfies_minimum_mono, satisfies_minimum-upper,
}
use smart_academic_planning.DegreeAudit.Status.{Status, count_status, status_rank}
use smart_academic_planning.DegreeAudit.Status.Meaning.{status_rank-count_status_mono}
use smart_academic_planning.DegreeAudit.Quantize.{tenth, round_half_even, quantize_credits}
use smart_academic_planning.DegreeAudit.Engine.{completion_percentage}
use smart_academic_planning.DegreeAudit.Engine.Percentage.{
  completion_percentage_meaning, completion_percentage_mono,
}
use smart_academic_planning.DegreeAudit.Index.{
  node_leb, build_children_by_parent, build_attempts_by_course, build_transfers_by_course,
}
use smart_academic_planning.DegreeAudit.Index.Grouping.{has_key, build_indexes-eq-filter}
use smart_academic_planning.DegreeAudit.Tests.Samples.{
  policy, root_node, choice_node, pool_node, transfer,
}

b_plus_passes :
    (satisfies_minimum policy (some (codes " b+")) (some (codes "b"))).is_satisfied ≡ true
unfolding satisfies_minimum normalized normalized_decision ranked_decision upper strip
b_plus_passes = refl

normalized_b : normalized (some (codes "b")) ≡ some (codes "B")
unfolding normalized upper strip
normalized_b = refl

normalized_c : normalized (some (codes "C ")) ≡ some (codes "C")
unfolding normalized upper strip
normalized_c = refl

satisfies_minimum_mono_example :
    (satisfies_minimum policy (some (codes " b+")) (some (codes "C "))).is_satisfied ≡ true
satisfies_minimum_mono_example =
    satisfies_minimum_mono policy (some (codes " b+")) (some (codes "b")) (some (codes "C "))
      (codes "B") (codes "C") 3 6 normalized_b normalized_c refl refl (omega arith) b_plus_passes

satisfies_minimum-upper_example :
    satisfies_minimum policy (some (upper (codes " b+"))) (some (upper (codes "c")))
    ≡ satisfies_minimum policy (some (codes " b+")) (some (codes "c"))
satisfies_minimum-upper_example = satisfies_minimum-upper policy (codes " b+") (codes "c")

status_rank-count_status_mono_example :
    status_rank (count_status 3 2 1 0) ≤ status_rank (count_status 3 1 1 1)
status_rank-count_status_mono_example =
    status_rank-count_status_mono 3 1 1 1 2 1 0 (omega arith) (omega arith) (omega arith)

abbrev mixed : List Status
mixed = satisfied ∷ in_progress ∷ planned ∷ []

abbrev asked : ℕ
asked = 1200

completion_percentage_meaning_example :
    (asked ≡ 0 → completion_percentage 401 asked ≡ 0)
    × (0 < asked → asked ≤ 401 → completion_percentage 401 asked ≡ 10000)
    × (401 < asked
        → (2 * (completion_percentage 401 asked * asked) ≤ 2 * (401 * 10000) + asked)
          × (2 * (401 * 10000) ≤ 2 * (completion_percentage 401 asked * asked) + asked))
completion_percentage_meaning_example = completion_percentage_meaning 401 asked

-- 33.416… percent.
a_third : completion_percentage 401 1200 ≡ 3342
unfolding completion_percentage round_half_even
a_third = refl

-- Amounts between two tenths: 3.04 is rounded to 3.0, 3.15 to 3.2, and 3.25 to 3.2.
rounded_credits :
    (quantize_credits (304 * (tenth / 10)) ≡ 30 * tenth)
    × (quantize_credits (315 * (tenth / 10)) ≡ 32 * tenth)
    × (quantize_credits (325 * (tenth / 10)) ≡ 32 * tenth)
unfolding quantize_credits round_half_even
rounded_credits = (refl, refl, refl)

completion_percentage_mono_example :
    (completion_percentage 400 1200 ≤ completion_percentage 430 1200)
    × (completion_percentage 430 1200 ≤ 10000)
completion_percentage_mono_example = completion_percentage_mono 400 430 1200 (omega arith)

build_indexes-eq-filter_example :
    (get_list 10 (build_children_by_parent (pool_node ∷ root_node ∷ choice_node ∷ []))
      ≡ sorted node_leb
          (filter_by (λ n. has_key 10 n.parent_id) (pool_node ∷ root_node ∷ choice_node ∷ [])))
    × (get_list 10 (build_attempts_by_course [])
        ≡ sorted
            (λ x y. id_leb (x.attempt_number, x.id) (y.attempt_number, y.id))
            (filter_by (λ a. a.course_id == 10) []))
    × (get_list 10 (build_transfers_by_course (transfer ∷ []))
        ≡ sorted
            (λ x y. leb x.id y.id)
            (filter_by (λ t. has_key 10 t.equivalent_course_id) (transfer ∷ [])))
build_indexes-eq-filter_example =
    build_indexes-eq-filter 10 (pool_node ∷ root_node ∷ choice_node ∷ []) [] (transfer ∷ [])
