-- ===== src/Prelude/Lists.antt =====
-- Lists measured by native numbers, sums over a list, and predicates over its elements.
use Prim.Native.Nat.{ℕ, zero, suc, ◌+◌, ◌≤◌}
use mathlib.Core.Path.{◌≡◌, refl, ap, ◌∙◌}
use mathlib.Core.Logic.{◌↔◌, ∥∥₁_elim}
use mathlib.Core.Bool.{Bool, true, false, ◌&&◌, ◌||◌, Bool-set}
use mathlib.Core.List.{List, [], ◌∷◌, ◌++◌, map, Mem, Memᴰ}
use native.Mathlib.Omega.{arith}
use smart_academic_planning.Prelude.Tests.{if◌then◌else◌}

module _ {ℓ} {A : Type ℓ} where
  abbrev pub length : List A → ℕ
  length [] = 0
  length (x ∷ xs) = suc (length xs)

  abbrev pub take : ℕ → List A → List A
  take zero xs = []
  take (suc n) [] = []
  take (suc n) (x ∷ xs) = x ∷ take n xs

  abbrev pub All {κ} : (A → Type κ) → List A → Type κ
  All P [] = Unit
  All P (x ∷ xs) = P x × All P xs

  -- `[x for x in xs if p(x)]`
  abbrev pub filter_by : (A → Bool) → List A → List A
  filter_by p [] = []
  filter_by p (x ∷ xs) = if p x then x ∷ filter_by p xs else filter_by p xs

  -- `any(p(x) for x in xs)`
  abbrev pub any_by : (A → Bool) → List A → Bool
  any_by p [] = false
  any_by p (x ∷ xs) = p x || any_by p xs

  abbrev pub all_by : (A → Bool) → List A → Bool
  all_by p [] = true
  all_by p (x ∷ xs) = p x && all_by p xs

  -- `sum(1 for x in xs if p(x))`
  abbrev pub count_by : (A → Bool) → List A → ℕ
  count_by p [] = 0
  count_by p (x ∷ xs) = (if p x then 1 else 0) + count_by p xs

  -- `sum(f(x) for x in xs if p(x))`
  abbrev pub sum_if : (A → Bool) → (A → ℕ) → List A → ℕ
  sum_if p f [] = 0
  sum_if p f (x ∷ xs) = (if p x then f x else 0) + sum_if p f xs

  abbrev pub sum_by : (A → ℕ) → List A → ℕ
  sum_by f [] = 0
  sum_by f (x ∷ xs) = f x + sum_by f xs

  abbrev pub flat_map_by {κ} : {B : Type κ} → (A → List B) → List A → List B
  flat_map_by f [] = []
  flat_map_by f (x ∷ xs) = f x ++ flat_map_by f xs

  abbrev pub IsNonEmpty : List A → Type 0
  IsNonEmpty [] = ⊥
  IsNonEmpty (x ∷ xs) = Unit

module _ {ℓ} {A : Type ℓ} where
  pub IsNonEmpty-append : (xs ys : List A) → IsNonEmpty xs → IsNonEmpty (xs ++ ys)
  IsNonEmpty-append [] ys h = absurd h
  IsNonEmpty-append (x ∷ xs) ys h = tt

  pub IsNonEmpty-map {κ} :
      {B : Type κ} (f : A → B) (xs : List A) → IsNonEmpty xs → IsNonEmpty (map f xs)
  IsNonEmpty-map f [] h = absurd h
  IsNonEmpty-map f (x ∷ xs) h = tt

  pub length-append : (xs ys : List A) → length (xs ++ ys) ≡ length xs + length ys
  length-append [] ys = omega arith
  length-append (x ∷ xs) ys = omega (arith, length-append xs ys)

  pub length-take-le : (n : ℕ) (xs : List A) → length (take n xs) ≤ n
  length-take-le zero xs = omega arith
  length-take-le (suc n) [] = omega arith
  length-take-le (suc n) (x ∷ xs) = omega (arith, length-take-le n xs)

  pub All-append {κ} : (P : A → Type κ) (xs ys : List A) → All P xs → All P ys → All P (xs ++ ys)
  All-append P [] ys h k = k
  All-append P (x ∷ xs) ys h k = (h.0, All-append P xs ys h.1 k)

  pub All-middle {κ} :
      (P : A → Type κ) (before : List A) (x : A) (after : List A)
      → All P (before ++ x ∷ after)
      → P x
  All-middle P [] x after h = h.0
  All-middle P (y ∷ before) x after h = All-middle P before x after h.1

  pub All-filter {κ} :
      (P : A → Type κ) (p : A → Bool) (xs : List A) → All P xs → All P (filter_by p xs)
  All-filter P p [] h = tt
  All-filter P p (x ∷ xs) h = go (All-filter P p xs h.1) (p x)
    where
      go :
          All P (filter_by p xs)
          → (b : Bool) → All P (if b then x ∷ filter_by p xs else filter_by p xs)
      go rest true = (h.0, rest)
      go rest false = rest

  pub All-map {κ μ} :
      {P : A → Type κ} {Q : A → Type μ} (f : (x : A) → P x → Q x) (xs : List A)
      → All P xs
      → All Q xs
  All-map f [] h = tt
  All-map f (x ∷ xs) h = (f x h.0, All-map f xs h.1)

  pub All-tt : (xs : List A) → All (λ _. Unit {0}) xs
  All-tt [] = tt
  All-tt (x ∷ xs) = (tt, All-tt xs)

  pub All-map₂ {κ μ ν} :
      {P : A → Type κ} {Q : A → Type μ} {R : A → Type ν} (f : (x : A) → P x → Q x → R x)
      (xs : List A)
      → All P xs
      → All Q xs
      → All R xs
  All-map₂ f [] h k = tt
  All-map₂ f (x ∷ xs) h k = (f x h.0 k.0, All-map₂ f xs h.1 k.1)

  pub all_by_iff : (p : A → Bool) (xs : List A) → (all_by p xs ≡ true) ↔ All (λ x. p x ≡ true) xs
  all_by_iff p [] = (λ _. tt, λ _. refl)
  all_by_iff p (x ∷ xs) =
      let rest = all_by_iff p xs in
      (λ h. (ground arith, rest.0 (ground arith)), λ h. ground (arith, rest.1 h.1))

  -- What a test says of every element, it says of a member.
  pub All-Mem :
      (p : A → Bool) (b : Bool) (x : A) (xs : List A) → All (λ y. p y ≡ b) xs → Mem x xs → p x ≡ b
  All-Mem p b x xs h m = ∥∥₁_elim m (Bool-set (p x) b) (λ d. at d h)
    where
      at : {ys : List A} → Memᴰ x ys → All (λ y. p y ≡ b) ys → p x ≡ b
      at (Memᴰ.head e) h = ap p e ∙ h.0
      at (Memᴰ.tail d) h = at d h.1
