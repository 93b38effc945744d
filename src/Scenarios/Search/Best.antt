-- ===== src/Scenarios/Search/Best.antt =====
-- allocator.py: what the search keeps in `best_selection`.
use smart_academic_planning.Prelude.{
  ℕ, ◌+◌, ◌≤◌, Bool, true, false, not, ◌&&◌, List, [], ◌∷◌, Text, leb, length, ◌≡◌, refl, ap, sym,
  subst, ◌∙◌, ◌⊎◌, inl, inr, Bool-cases, &&-true, All, then_leb, then_leb-total, then_leb_trans,
  arith,
}
use mathlib.Core.List.{Mem, mem-cons_self, mem-cons_of_mem}
use smart_academic_planning.DegreeAudit.Keys.{key_leb, key_leb-total, key_leb_trans}
use smart_academic_planning.Scenarios.Candidates.{
  ProgramCombinationPolicy, Selection, texts_leb, texts_leb-total, texts_leb_trans,
}
use smart_academic_planning.Scenarios.Objective.{
  AllocationObjective, score_leb, objective_for, gains, losses,
}
use smart_academic_planning.Scenarios.Policies.{is_valid_selection}
use smart_academic_planning.Scenarios.Search.{Search, tie_of, improves, consider, adopt, count_one}
use smart_academic_planning.Scenarios.Search.Linear.{scan, scan_stops, scan_goes}
use smart_academic_planning.Scenarios.Search.Bounded.{consider_counts}

abbrev Rank : Type 0
Rank = AllocationObjective × List Text

-- At most the same score, and where the scores are the same no smaller a tie.
abbrev rank_leb : Rank → Rank → Bool
rank_leb = then_leb score_leb (λ t u. texts_leb u t)

score_leb-total : (x y : AllocationObjective) → score_leb x y ≡ false → score_leb y x ≡ true
unfolding score_leb
score_leb-total x y =
    then_leb-total key_leb (λ l m. key_leb m l) key_leb-total (λ l m. key_leb-total m l)
      (gains x, losses x) (gains y, losses y)

score_leb_trans :
    (x y z : AllocationObjective)
    → score_leb x y ≡ true
    → score_leb y z ≡ true
    → score_leb x z ≡ true
unfolding score_leb
score_leb_trans x y z =
    then_leb_trans key_leb (λ l m. key_leb m l) key_leb_trans (λ l m n h k. key_leb_trans n m l k h)
      (gains x, losses x) (gains y, losses y) (gains z, losses z)

rank_leb-total : (x y : Rank) → rank_leb x y ≡ false → rank_leb y x ≡ true
rank_leb-total =
    then_leb-total score_leb (λ t u. texts_leb u t) score_leb-total (λ t u. texts_leb-total u t)

rank_leb_trans : (x y z : Rank) → rank_leb x y ≡ true → rank_leb y z ≡ true → rank_leb x z ≡ true
rank_leb_trans =
    then_leb_trans score_leb (λ t u. texts_leb u t) score_leb_trans
      (λ t u v h k. texts_leb_trans v u t k h)

rank_leb_refl : (x : Rank) → rank_leb x x ≡ true
rank_leb_refl x = elim (Bool-cases (rank_leb x x)) [ inl e ↦ e | inr e ↦ rank_leb-total x x e ]

improves-eq :
    (s : Search) (o : AllocationObjective) (t : List Text)
    → improves s o t ≡ not (rank_leb (o, t) (s.best_objective, s.best_tie))
unfolding improves
improves-eq s o t = ground arith

module _ (policies : List ProgramCombinationPolicy) where
  -- The kept selection is valid, and the kept objective and tie are those of it.
  pub record IsSound (s : Search) : Type 0 where
    pub valid : is_valid_selection policies s.best_selection ≡ true
    pub objective : s.best_objective ≡ objective_for policies s.best_selection
    pub tie : s.best_tie ≡ tie_of s.best_selection

  -- The selection is not valid, or it does not improve on the kept one.
  abbrev pub IsNoBetter : Search → Selection → Type 0
  IsNoBetter s x =
      (is_valid_selection policies x && improves s (objective_for policies x) (tie_of x)) ≡ false

  abbrev rank_of : Selection → Rank
  rank_of x = (objective_for policies x, tie_of x)

  abbrev kept_rank : Search → Rank
  kept_rank s = (s.best_objective, s.best_tie)

  abbrev adopts : Selection → Search → Bool
  adopts x s = is_valid_selection policies x && improves s (objective_for policies x) (tie_of x)

  consider-adopt :
      (x : Selection) (s : Search)
      → adopts x s ≡ true
      → consider policies x s ≡ adopt policies x (count_one policies s)
  unfolding consider
  consider-adopt x s h = ground arith

  consider_keeps :
      (x : Selection) (s : Search)
      → adopts x s ≡ false
      → consider policies x s ≡ count_one policies s
  unfolding consider
  consider_keeps x s h = ground arith

  consider-IsSound : (x : Selection) (s : Search) → IsSound s → IsSound (consider policies x s)
  consider-IsSound x s h = elim (Bool-cases (adopts x s)) [
    | inl e ↦
        subst IsSound (sym (consider-adopt x s e))
          (record { valid = (&&-true _ _ e).0; objective = refl; tie = refl })
    | inr e ↦
        subst IsSound (sym (consider_keeps x s e))
          (record { valid = h.valid; objective = h.objective; tie = h.tie })
  ]

  -- What does not improve on s does not improve on a selection that does.
  adopted_no_better :
      (x : Selection) (s : Search) (o : AllocationObjective) (t : List Text)
      → improves s (objective_for policies x) (tie_of x) ≡ true
      → improves s o t ≡ false
      → improves (adopt policies x (count_one policies s)) o t ≡ false
  adopted_no_better x s o t better no_better = ground (
    arith,
    improves-eq s (objective_for policies x) (tie_of x),
    improves-eq s o t,
    improves-eq (adopt policies x (count_one policies s)) o t,
    rank_leb-total (rank_of x) (kept_rank s),
    rank_leb_trans (o, t) (kept_rank s) (rank_of x),
  )

  consider-IsNoBetter :
      (x : Selection) (s : Search) (y : Selection)
      → IsNoBetter s y
      → IsNoBetter (consider policies x s) y
  consider-IsNoBetter x s y h = elim (Bool-cases (adopts x s)) [
    | inl e ↦
        subst (λ t. IsNoBetter t y) (sym (consider-adopt x s e))
          (let better =
              (&&-true (is_valid_selection policies x)
                (improves s (objective_for policies x) (tie_of x)) e).1 in
            ground (arith, adopted_no_better x s (objective_for policies y) (tie_of y) better))
    | inr e ↦ subst (λ t. IsNoBetter t y) (sym (consider_keeps x s e)) (unfold improves in h)
  ]

  considered : (x : Selection) (s : Search) → IsNoBetter (consider policies x s) x
  considered x s = elim (Bool-cases (adopts x s)) [
    | inl e ↦
        subst (λ t. IsNoBetter t x) (sym (consider-adopt x s e))
          (ground (
            arith,
            improves-eq (adopt policies x (count_one policies s)) (objective_for policies x)
                (tie_of x),
            rank_leb_refl (rank_of x),
          ))
    | inr e ↦ subst (λ t. IsNoBetter t x) (sym (consider_keeps x s e)) (unfold improves in e)
  ]

  -- The kept selection is the one of before or one of the list.
  abbrev pub IsFrom : Search → List Selection → Search → Type 0
  IsFrom s xs s' = (s'.best_selection ≡ s.best_selection) ⊎ Mem s'.best_selection xs

  consider-IsFrom :
      (x : Selection) (xs : List Selection) (s t : Search)
      → IsFrom (consider policies x s) xs t
      → IsFrom s (x ∷ xs) t
  consider-IsFrom x xs s t (inr m) = inr (mem-cons_of_mem x m)
  consider-IsFrom x xs s t (inl e) = elim (Bool-cases (adopts x s)) [
    | inl h ↦ inr (
        subst (λ l. Mem l (x ∷ xs)) (sym (e ∙ ap (λ r. r.best_selection) (consider-adopt x s h)))
          mem-cons_self)
    | inr h ↦ inl (e ∙ ap (λ r. r.best_selection) (consider_keeps x s h))
  ]

  module _ (search_limit : ℕ) where
    -- Whatever the bound, what is kept is sound, and it is the selection of before or one of the
    -- list.
    pub scan-IsSound :
        (xs : List Selection) (s : Search)
        → IsSound s
        → IsSound (scan policies search_limit xs s) × IsFrom s xs (scan policies search_limit xs s)
    scan-IsSound [] s h = unfold scan in (h, inl refl)
    scan-IsSound (x ∷ xs) s h = elim (Bool-cases (leb search_limit s.evaluated)) [
      | inl e ↦
          subst (λ t. IsSound t × IsFrom s (x ∷ xs) t)
            (sym (scan_stops policies search_limit x xs s e))
            (record { valid = h.valid; objective = h.objective; tie = h.tie }, inl refl)
      | inr e ↦
          let rest = scan-IsSound xs (consider policies x s) (consider-IsSound x s h) in
          subst (λ t. IsSound t × IsFrom s (x ∷ xs) t)
            (sym (scan_goes policies search_limit x xs s e))
            (
              rest.0,
              consider-IsFrom x xs s (scan policies search_limit xs (consider policies x s)) rest.1,
            )
    ]

    -- Where the bound admits the whole list, no selection of it improves on what is kept.
    pub scan-IsNoBetter :
        (xs : List Selection) (s : Search)
        → s.evaluated + length xs ≤ search_limit
        → All (IsNoBetter (scan policies search_limit xs s)) xs
          × ((y : Selection) → IsNoBetter s y → IsNoBetter (scan policies search_limit xs s) y)
    scan-IsNoBetter [] s h = unfold scan in (tt, λ y k. k)
    scan-IsNoBetter (x ∷ xs) s h =
        let step = consider_counts policies x s in
        let rest = scan-IsNoBetter xs (consider policies x s) (omega (arith, step.0)) in
        subst
          (λ t. All (IsNoBetter t) (x ∷ xs) × ((y : Selection) → IsNoBetter s y → IsNoBetter t y))
          (sym (scan_goes policies search_limit x xs s (ground arith)))
          ((rest.1 x (considered x s), rest.0), λ y k. rest.1 y (consider-IsNoBetter x s y k))
