-- ===== src/DegreeAudit/Index/Rows.antt =====
-- Facts about rows, carried to the dictionaries that `_load_context` makes of them.
use smart_academic_planning.Prelude.{
  ℕ, Bool, true, Option, none, some, List, [], ◌∷◌, Dict, lookup, assign, get_list, values,
  append_to, lookup-assign, sorted, sorted-All, any_by, ◌==◌, All, All-append, All-get_list_key,
  ◌≢◌, ◌≡◌, Bool-cases, inl, inr, map, arith,
}
use smart_academic_planning.DegreeAudit.Index.{group_from, group_by, by_id_from}

module _ {ℓ κ} {A : Type ℓ} (Q : ℕ → A → Type κ) where
  -- Under each key stand rows with the property at that key.
  abbrev pub Holds : Dict (List A) → Type κ
  Holds d = All (λ e. All (Q e.0) e.1) d

  abbrev pub AtKey : Option ℕ → A → Type κ
  AtKey none x = Unit
  AtKey (some k) x = Q k x

  assign-Holds :
      (k : ℕ) (l : List A) (d : Dict (List A)) → Holds d → All (Q k) l → Holds (assign k l d)
  unfolding assign
  assign-Holds k l [] h p = (p, tt)
  assign-Holds k l ((j, w) ∷ d) h p = elim (Bool-cases (j == k)) [
    | inl e ↦ rw e (p, h.1)
    | inr e ↦ rw e (h.0, assign-Holds k l d h.1 p)
  ]

  append_to-Holds : (k : ℕ) (x : A) (d : Dict (List A)) → Holds d → Q k x → Holds (append_to k x d)
  unfolding append_to
  append_to-Holds k x d h q =
      assign-Holds k _ d h
        (All-append (Q k) (get_list k d) (x ∷ []) (All-get_list_key Q k d h) (q, tt))

  pub group_from-Holds :
      (key : A → Option ℕ) (d : Dict (List A)) (xs : List A)
      → Holds d
      → All (λ x. AtKey (key x) x) xs
      → Holds (group_from key d xs)
  unfolding group_from
  group_from-Holds key d [] h p = h
  group_from-Holds key d (x ∷ xs) h p =
      group_from-Holds key
        (elim (key x) as (λ _. Dict (List A)) [ none ↦ d | some i ↦ append_to i x d ]) xs
        (added (key x) p.0) p.1
    where
      added :
          (k : Option ℕ)
          → AtKey k x
          → Holds (elim k as (λ _. Dict (List A)) [ none ↦ d | some i ↦ append_to i x d ])
      added none q = h
      added (some i) q = append_to-Holds i x d h q

  sorted-Holds :
      (le : A → A → Bool) (d : Dict (List A)) → Holds d → Holds (map (λ e. (e.0, sorted le e.1)) d)
  sorted-Holds le [] h = tt
  sorted-Holds le ((k, l) ∷ d) h = (sorted-All le (Q k) l h.0, sorted-Holds le d h.1)

  -- A property of each row at its key holds throughout the index.
  pub group_by-Holds :
      (key : A → Option ℕ) (le : A → A → Bool) (xs : List A)
      → All (λ x. AtKey (key x) x) xs
      → Holds (group_by key le xs)
  unfolding group_by
  group_by-Holds key le xs h = sorted-Holds le _ (group_from-Holds key [] xs tt h)

module _ {ℓ} {A : Type ℓ} (id : A → ℕ) where
  kept :
      (k : ℕ) (d : Dict A) (xs : List A) → lookup k d ≢ none → lookup k (by_id_from id d xs) ≢ none
  unfolding by_id_from
  kept k d [] h = h
  kept k d (x ∷ xs) h =
      kept k (assign (id x) x d) xs λ e. ground (arith, lookup-assign (id x) k x d)

  -- A row with the id is found under it.
  pub lookup-by_id_from :
      (k : ℕ) (d : Dict A) (xs : List A)
      → any_by (λ x. id x == k) xs ≡ true
      → lookup k (by_id_from id d xs) ≢ none
  unfolding by_id_from
  lookup-by_id_from k d [] h = cc
  lookup-by_id_from k d (x ∷ xs) h = elim (Bool-cases (id x == k)) [
    | inl e ↦ kept k (assign (id x) x d) xs λ missing. ground (arith, lookup-assign (id x) k x d)
    | inr e ↦ lookup-by_id_from k (assign (id x) x d) xs (ground arith)
  ]

  pub assign-All {κ} :
      (P : A → Type κ) (k : ℕ) (v : A) (d : Dict A)
      → All P (values d)
      → P v
      → All P (values (assign k v d))
  unfolding assign
  assign-All P k v [] h p = (p, tt)
  assign-All P k v ((j, w) ∷ d) h p = elim (Bool-cases (j == k)) [
    | inl e ↦ rw e (p, h.1)
    | inr e ↦ rw e (h.0, assign-All P k v d h.1 p)
  ]

  pub by_id_from-All {κ} :
      (P : A → Type κ) (d : Dict A) (xs : List A)
      → All P (values d)
      → All P xs
      → All P (values (by_id_from id d xs))
  unfolding by_id_from
  by_id_from-All P d [] h p = h
  by_id_from-All P d (x ∷ xs) h p =
      by_id_from-All P (assign (id x) x d) xs (assign-All P (id x) x d h p.0) p.1
