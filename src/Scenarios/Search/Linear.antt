-- ===== src/Scenarios/Search/Linear.antt =====
-- allocator.py: the nested loops of `visit`, against one loop over all combinations of choices.
use smart_academic_planning.Prelude.{
  ℕ, true, false, List, [], ◌∷◌, ◌++◌, map, flat_map_by, leb, All, ◌≡◌, IsNonEmpty,
  IsNonEmpty-append, IsNonEmpty-map, refl, ap, sym, ◌∙◌, inl, inr, Bool-cases, arith,
}
use mathlib.Core.Path.{ap₂}
use mathlib.Core.List.{append_assoc, append-nil, map-append}
use smart_academic_planning.Scenarios.Candidates.{ProgramCombinationPolicy, Selection}
use smart_academic_planning.Scenarios.Search.{Search, stop, consider, try_choices, visit}

-- Every way to take one choice for each source, in the order of the search.
unfoldable pub selections : List (List Selection) → List Selection
selections [] = [] ∷ []
selections (choices ∷ rest) = flat_map_by (λ c. map (λ r. c ++ r) (selections rest)) choices

-- There is something to choose for each source.
abbrev pub HasChoices : List (List Selection) → Type 0
HasChoices sources = All IsNonEmpty sources

IsNonEmpty-selections :
    (sources : List (List Selection)) → HasChoices sources → IsNonEmpty (selections sources)
unfolding selections
IsNonEmpty-selections [] h = tt
IsNonEmpty-selections ([] ∷ rest) h = absurd h.0
IsNonEmpty-selections ((c ∷ cs) ∷ rest) h =
    IsNonEmpty-append (map (λ r. c ++ r) (selections rest)) _
      (IsNonEmpty-map (λ r. c ++ r) (selections rest) (IsNonEmpty-selections rest h.1))

-- The choices that begin with c, behind what is selected already.
regroup :
    (selected c : Selection) (rs : List Selection)
    → map (λ r. selected ++ r) (map (λ r. c ++ r) rs) ≡ map (λ r. (selected ++ c) ++ r) rs
regroup selected c [] = refl
regroup selected c (r ∷ rs) =
    ap₂ (λ x xs. x ∷ xs) (sym (append_assoc selected c r)) (regroup selected c rs)

module _ (policies : List ProgramCombinationPolicy) (search_limit : ℕ) where
  -- One loop over selections, under the same bound.
  unfoldable pub scan : List Selection → Search → Search
  scan [] s = s
  scan (x ∷ xs) s = elim (leb search_limit s.evaluated) [
    | true ↦ stop s
    | false ↦ scan xs (consider policies x s)
  ]

  pub scan_stops :
      (x : Selection) (xs : List Selection) (s : Search)
      → leb search_limit s.evaluated ≡ true
      → scan (x ∷ xs) s ≡ stop s
  unfolding scan
  scan_stops x xs s h = ground arith

  pub scan_goes :
      (x : Selection) (xs : List Selection) (s : Search)
      → leb search_limit s.evaluated ≡ false
      → scan (x ∷ xs) s ≡ scan xs (consider policies x s)
  unfolding scan
  scan_goes x xs s h = ground arith

  scan-stopped :
      (xs : List Selection) (s : Search)
      → leb search_limit s.evaluated ≡ true
      → scan xs (stop s) ≡ stop s
  scan-stopped [] s h = unfold scan in refl
  scan-stopped (x ∷ xs) s h = scan_stops x xs (stop s) h

  scan-append : (xs ys : List Selection) (s : Search) → scan (xs ++ ys) s ≡ scan ys (scan xs s)
  scan-append [] ys s = unfold scan in refl
  scan-append (x ∷ xs) ys s = elim (Bool-cases (leb search_limit s.evaluated)) [
    | inl e ↦
        scan_stops x (xs ++ ys) s e
        ∙ sym (scan-stopped ys s e)
        ∙ ap (scan ys) (sym (scan_stops x xs s e))
    | inr e ↦
        scan_goes x (xs ++ ys) s e
        ∙ scan-append xs ys (consider policies x s)
        ∙ ap (scan ys) (sym (scan_goes x xs s e))
  ]

  -- Where the bound is reached, a loop over something stops at once.
  scan_at_limit :
      (xs : List Selection) (s : Search)
      → leb search_limit s.evaluated ≡ true
      → IsNonEmpty xs
      → scan xs s ≡ stop s
  scan_at_limit [] s h some_left = absurd some_left
  scan_at_limit (x ∷ xs) s h some_left = scan_stops x xs s h

  try_stops :
      (f : Selection → Search → Search) (selected c : Selection) (cs : List Selection) (s : Search)
      → leb search_limit s.evaluated ≡ true
      → try_choices policies search_limit f selected (c ∷ cs) s ≡ stop s
  unfolding try_choices
  try_stops f selected c cs s h = ground arith

  try_goes :
      (f : Selection → Search → Search) (selected c : Selection) (cs : List Selection) (s : Search)
      → leb search_limit s.evaluated ≡ false
      → try_choices policies search_limit f selected (c ∷ cs) s
        ≡ try_choices policies search_limit f selected cs (f (selected ++ c) s)
  unfolding try_choices
  try_goes f selected c cs s h = ground arith

  try_choices-eq-scan :
      (visit_next : Selection → Search → Search) (rs : List Selection)
      → IsNonEmpty rs
      → ((chosen : Selection) (t : Search)
          → visit_next chosen t ≡ scan (map (λ r. chosen ++ r) rs) t)
      → (selected : Selection) (choices : List Selection) (s : Search)
      → try_choices policies search_limit visit_next selected choices s
        ≡ scan (map (λ r. selected ++ r) (flat_map_by (λ c. map (λ r. c ++ r) rs) choices)) s
  try_choices-eq-scan visit_next rs some_left same selected [] s = unfold try_choices scan in refl
  try_choices-eq-scan visit_next rs some_left same selected (c ∷ cs) s =
      elim (Bool-cases (leb search_limit s.evaluated)) [
        | inl e ↦ try_stops visit_next selected c cs s e ∙ sym (scan_at_limit _ s e filled)
        | inr e ↦
            try_goes visit_next selected c cs s e
            ∙ try_choices-eq-scan visit_next rs some_left same selected cs
                (visit_next (selected ++ c) s)
            ∙ ap (scan later) (same (selected ++ c) s)
            ∙ sym (scan-append (map (λ r. (selected ++ c) ++ r) rs) later s)
            ∙ ap (λ l. scan l s) (sym split)
      ]
    where
      later : List Selection
      later = map (λ r. selected ++ r) (flat_map_by (λ d. map (λ r. d ++ r) rs) cs)

      split :
          map
            (λ r. selected ++ r)
            (map (λ r. c ++ r) rs ++ flat_map_by (λ d. map (λ r. d ++ r) rs) cs)
          ≡ map (λ r. (selected ++ c) ++ r) rs ++ later
      split =
          map-append (λ r. selected ++ r) (map (λ r. c ++ r) rs) _
          ∙ ap (λ l. l ++ later) (regroup selected c rs)

      filled : IsNonEmpty (
          map
            (λ r. selected ++ r)
            (map (λ r. c ++ r) rs ++ flat_map_by (λ d. map (λ r. d ++ r) rs) cs))
      filled =
          IsNonEmpty-map _ _
            (IsNonEmpty-append (map (λ r. c ++ r) rs) _ (IsNonEmpty-map (λ r. c ++ r) rs some_left))

  visit_stops :
      (sources : List (List Selection)) (selected : Selection) (s : Search)
      → leb search_limit s.evaluated ≡ true
      → visit policies search_limit sources selected s ≡ stop s
  unfolding visit
  visit_stops [] selected s h = ground arith
  visit_stops (choices ∷ rest) selected s h = ground arith

  visit_leaf :
      (selected : Selection) (s : Search)
      → leb search_limit s.evaluated ≡ false
      → visit policies search_limit [] selected s ≡ consider policies selected s
  unfolding visit
  visit_leaf selected s h = ground arith

  visit_goes :
      (choices : List Selection) (rest : List (List Selection)) (selected : Selection) (s : Search)
      → leb search_limit s.evaluated ≡ false
      → visit policies search_limit (choices ∷ rest) selected s
        ≡ try_choices policies search_limit
            (λ chosen t. visit policies search_limit rest chosen t)
            selected
            choices
            s
  unfolding visit
  visit_goes choices rest selected s h = ground arith

  stopped_alike :
      (sources : List (List Selection)) (selected : Selection) (s : Search)
      → HasChoices sources
      → leb search_limit s.evaluated ≡ true
      → visit policies search_limit sources selected s
        ≡ scan (map (λ r. selected ++ r) (selections sources)) s
  stopped_alike sources selected s h e =
      visit_stops sources selected s e
      ∙ sym (
          scan_at_limit _ s e (
            IsNonEmpty-map (λ r. selected ++ r) (selections sources)
              (IsNonEmpty-selections sources h)))

  -- If every source has a choice, the nested search is the bounded loop over all combinations of
  -- choices, each behind what is selected already.
  pub visit-eq-scan :
      (sources : List (List Selection)) (selected : Selection) (s : Search)
      → HasChoices sources
      → visit policies search_limit sources selected s
        ≡ scan (map (λ r. selected ++ r) (selections sources)) s
  visit-eq-scan [] selected s h = elim (Bool-cases (leb search_limit s.evaluated)) [
    | inl e ↦ stopped_alike [] selected s h e
    | inr e ↦
        visit_leaf selected s e
        ∙ ap (λ l. consider policies l s) (sym (append-nil selected))
        ∙ sym (scan_goes (selected ++ []) [] s e ∙ unfold scan in refl)
        ∙ unfold selections in refl
  ]
  visit-eq-scan (choices ∷ rest) selected s h = elim (Bool-cases (leb search_limit s.evaluated)) [
    | inl e ↦ stopped_alike (choices ∷ rest) selected s h e
    | inr e ↦
        visit_goes choices rest selected s e
        ∙ try_choices-eq-scan (λ chosen t. visit policies search_limit rest chosen t)
            (selections rest) (IsNonEmpty-selections rest h.1)
            (λ chosen t. visit-eq-scan rest chosen t h.1) selected choices s
        ∙ unfold selections in refl
  ]
