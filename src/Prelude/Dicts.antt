-- ===== src/Prelude/Dicts.antt =====
-- Python's `dict` as a list of entries in insertion order: an assignment to a present key keeps
-- its place. Keys are numbers.
use Prim.Native.Nat.{ℕ}
use mathlib.Core.Path.{◌≡◌, refl, subst}
use mathlib.Core.Logic.{◌≢◌}
use mathlib.Core.Bool.{Bool, true, false}
use mathlib.Core.Option.{Option, none, some}
use mathlib.Core.List.{List, [], ◌∷◌, ◌++◌, map}
use native.Mathlib.Omega.{arith}
use smart_academic_planning.Prelude.Tests.{if◌then◌else◌, ◌==◌, ==_iff}
use smart_academic_planning.Prelude.Lists.{All, All-map}

abbrev pub Dict {ℓ} : Type ℓ → Type ℓ
Dict V = List (ℕ × V)

module _ {ℓ} {V : Type ℓ} where
  unfoldable pub lookup : ℕ → Dict V → Option V
  lookup k [] = none
  lookup k ((j, v) ∷ d) = if j == k then some v else lookup k d

  -- `d[k] = v`
  unfoldable pub assign : ℕ → V → Dict V → Dict V
  assign k v [] = (k, v) ∷ []
  assign k v ((j, w) ∷ d) = if j == k then (k, v) ∷ d else (j, w) ∷ assign k v d

  abbrev pub keys : Dict V → List ℕ
  keys = map (λ e. e.0)

  abbrev pub values : Dict V → List V
  values = map (λ e. e.1)

  pub lookup-assign :
      (k j : ℕ) (v : V) (d : Dict V)
      → lookup j (assign k v d) ≡ (if k == j then some v else lookup j d)
  unfolding lookup assign
  lookup-assign k j v [] = refl
  lookup-assign k j v ((i, w) ∷ d) = ground (arith, lookup-assign k j v d)

-- `d.get(k, [])`
abbrev pub get_list {ℓ} : {V : Type ℓ} → ℕ → Dict (List V) → List V
get_list k d = elim (lookup k d) [ none ↦ [] | some l ↦ l ]

-- `d[k].append(v)` on a `defaultdict(list)`.
unfoldable pub append_to {ℓ} : {V : Type ℓ} → ℕ → V → Dict (List V) → Dict (List V)
append_to k v d = assign k (get_list k d ++ v ∷ []) d

-- What holds of every list in a dictionary, under its key, holds of the list that is looked up.
pub All-get_list_key {ℓ κ} :
    {V : Type ℓ} (P : ℕ → V → Type κ) (k : ℕ) (d : Dict (List V))
    → All (λ e. All (P e.0) e.1) d
    → All (P k) (get_list k d)
unfolding lookup
All-get_list_key P k [] h = tt
All-get_list_key {V} P k ((j, l) ∷ d) h = go (j == k) (==_iff j k).0 (All-get_list_key P k d h.1)
  where
    go :
        (hit : Bool)
        → (hit ≡ true → j ≡ k)
        → All (P k) (get_list k d)
        → All
            (P k)
            (elim (if hit then some l else lookup k d) as (λ _. List V) [ none ↦ [] | some l ↦ l ])
    go true same rest = subst (λ i. All (P i) l) (same refl) h.0
    go false same rest = rest

pub All-get_list {ℓ κ} :
    {V : Type ℓ} (P : V → Type κ) (k : ℕ) (d : Dict (List V))
    → All (λ e. All P e.1) d
    → All P (get_list k d)
All-get_list P = All-get_list_key (λ _. P)

module _ {ℓ} {V : Type ℓ} where
  lookup-cons_self : (j : ℕ) (v : V) (d : Dict V) → lookup j ((j, v) ∷ d) ≢ none
  unfolding lookup
  lookup-cons_self j v d h = ground arith

  lookup-cons : (j k : ℕ) (v : V) (d : Dict V) → lookup k d ≢ none → lookup k ((j, v) ∷ d) ≢ none
  unfolding lookup
  lookup-cons j k v d h e = ground arith

  -- No key of a dictionary misses.
  pub lookup-keys : (d : Dict V) → All (λ k. lookup k d ≢ none) (keys d)
  lookup-keys [] = tt
  lookup-keys ((j, v) ∷ d) =
      (lookup-cons_self j v d, All-map (λ k h. lookup-cons j k v d h) (keys d) (lookup-keys d))
