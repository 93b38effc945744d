-- ===== src/DegreeAudit/Index/Grouping.antt =====
-- context.py: the lists that stand under a key of a `build_*` dictionary.
use smart_academic_planning.Prelude.{
  leb, Bool, true, false, Option, none, some, List, [], ◌∷◌, ◌++◌, Dict, lookup, get_list,
  append_to, lookup-assign, ◌==◌, if◌then◌else◌, filter_by, map, sorted, ◌≡◌, refl, ap, sym, ◌∙◌,
  arith,
}
use mathlib.Core.List.{append-nil, append_assoc}
use smart_academic_planning.DegreeAudit.Keys.{id_leb}
use smart_academic_planning.DegreeAudit.Records.{
  Uuid, RequirementNode, StudentCourseAttempt, TransferCredit,
}
use smart_academic_planning.DegreeAudit.Index.{
  group_from, group_by, node_leb, build_children_by_parent, build_attempts_by_course,
  build_transfers_by_course,
}

abbrev pub has_key : Uuid → Option Uuid → Bool
has_key k none = false
has_key k (some j) = j == k

module _ {ℓ} {A : Type ℓ} where
  get_list-append_to :
      (k j : Uuid) (x : A) (d : Dict (List A))
      → get_list k (append_to j x d) ≡ (if j == k then get_list k d ++ x ∷ [] else get_list k d)
  unfolding append_to
  get_list-append_to k j x d = ground (arith, lookup-assign j k (get_list j d ++ x ∷ []) d)

  pub get_list-group_from :
      (key : A → Option Uuid) (k : Uuid) (d : Dict (List A)) (xs : List A)
      → get_list k (group_from key d xs) ≡ get_list k d ++ filter_by (λ x. has_key k (key x)) xs
  unfolding group_from
  get_list-group_from key k d [] = sym (append-nil (get_list k d))
  get_list-group_from key k d (x ∷ xs) = go (key x) (λ e. get_list-group_from key k e xs)
    where
      rest : List A
      rest = filter_by (λ y. has_key k (key y)) xs

      go :
          (j : Option Uuid)
          → ((e : Dict (List A)) → get_list k (group_from key e xs) ≡ get_list k e ++ rest)
          → get_list k (group_from key (elim j [ none ↦ d | some i ↦ append_to i x d ]) xs)
            ≡ get_list k d ++ (if has_key k j then x ∷ rest else rest)
      go none rec = rec d
      go (some i) rec = rec (append_to i x d) ∙ added (i == k) (get_list-append_to k i x d)
        where
          added :
              (hit : Bool)
              → get_list k (append_to i x d)
                ≡ (if hit then get_list k d ++ x ∷ [] else get_list k d)
              → get_list k (append_to i x d) ++ rest
                ≡ get_list k d ++ (if hit then x ∷ rest else rest)
          added true e = ap (λ l. l ++ rest) e ∙ append_assoc (get_list k d) (x ∷ []) rest
          added false e = ap (λ l. l ++ rest) e

  get_list-map :
      (f : List A → List A) (k : Uuid) (d : Dict (List A))
      → f [] ≡ []
      → get_list k (map (λ e. (e.0, f e.1)) d) ≡ f (get_list k d)
  unfolding lookup
  get_list-map f k [] h = sym h
  get_list-map f k ((j, l) ∷ d) h = ground (arith, get_list-map f k d h)

  -- Under each key stand exactly the rows with that key, sorted; so a row without a key is nowhere.
  pub get_list-group_by :
      (key : A → Option Uuid) (le : A → A → Bool) (k : Uuid) (xs : List A)
      → get_list k (group_by key le xs) ≡ sorted le (filter_by (λ x. has_key k (key x)) xs)
  unfolding group_by lookup sorted
  get_list-group_by key le k xs =
      get_list-map (sorted le) k (group_from key [] xs) refl
      ∙ ap (sorted le) (get_list-group_from key k [] xs)

-- Under a parent stand exactly the nodes with that parent, in the order of their display order, code
-- and id; under a course exactly the attempts of it, by number and id; and exactly the transfers that
-- are equivalent to it, by id, so that a transfer without an equivalent course stands nowhere.
pub build_indexes-eq-filter :
    (k : Uuid) (nodes : List RequirementNode) (attempts : List StudentCourseAttempt)
    (transfers : List TransferCredit)
    → (get_list k (build_children_by_parent nodes)
        ≡ sorted node_leb (filter_by (λ n. has_key k n.parent_id) nodes))
      × (get_list k (build_attempts_by_course attempts)
          ≡ sorted
              (λ x y. id_leb (x.attempt_number, x.id) (y.attempt_number, y.id))
              (filter_by (λ a. a.course_id == k) attempts))
      × (get_list k (build_transfers_by_course transfers)
          ≡ sorted
              (λ x y. leb x.id y.id)
              (filter_by (λ t. has_key k t.equivalent_course_id) transfers))
unfolding build_children_by_parent build_attempts_by_course build_transfers_by_course
build_indexes-eq-filter k nodes attempts transfers = (
  get_list-group_by (λ n. n.parent_id) node_leb k nodes,
  get_list-group_by (λ a. some a.course_id) _ k attempts,
  get_list-group_by (λ t. t.equivalent_course_id) _ k transfers,
)
