-- ===== src/Scenarios/Search/Bounded.antt =====
-- allocator.py: the counter `evaluated` and the flag `limit_reached`.
use smart_academic_planning.Prelude.{
  ℕ, suc, ◌+◌, ◌≤◌, min, ◌||◌, List, [], ◌∷◌, leb, ltb, length, ◌≡◌, Bool-cases, inl, inr, arith,
}
use smart_academic_planning.Scenarios.Candidates.{ProgramCombinationPolicy, Selection}
use smart_academic_planning.Scenarios.Search.{Search, consider}
use smart_academic_planning.Scenarios.Search.Linear.{scan, scan_stops, scan_goes}

module _ (policies : List ProgramCombinationPolicy) where
  pub consider_counts :
      (x : Selection) (s : Search)
      → ((consider policies x s).evaluated ≡ suc s.evaluated)
        × ((consider policies x s).limit_reached ≡ s.limit_reached)
  unfolding consider
  consider_counts x s = (ground arith, ground arith)

  module _ (search_limit : ℕ) where
    -- The loop evaluates as many selections as the bound admits, and raises the flag exactly if one
    -- is left.
    pub scan_counts :
        (xs : List Selection) (s : Search)
        → s.evaluated ≤ search_limit
        → ((scan policies search_limit xs s).evaluated ≡ min (s.evaluated + length xs) search_limit)
          × ((scan policies search_limit xs s).limit_reached
              ≡ (s.limit_reached || ltb search_limit (s.evaluated + length xs)))
    scan_counts [] s h = unfold scan in (omega arith, ground arith)
    scan_counts (x ∷ xs) s h = elim (Bool-cases (leb search_limit s.evaluated)) [
      | inl e ↦ rw (scan_stops policies search_limit x xs s e) (ground arith, ground arith)
      | inr e ↦
          let step = consider_counts x s in
          let rest = scan_counts xs (consider policies x s) (ground arith) in
          rw (scan_goes policies search_limit x xs s e) (ground arith, ground arith)
    ]
