-- ===== src/Prelude/Sort.antt =====
-- Python's `sorted`: a stable sort by an order on the elements, which the callers state on keys.
use mathlib.Core.Path.{◌≡◌}
use mathlib.Core.Logic.{inl, inr}
use mathlib.Core.Bool.{Bool, true, false, not, ◌&&◌, ◌||◌}
use mathlib.Core.List.{List, [], ◌∷◌, Perm}
use mathlib.Core.List.Perm
use native.Mathlib.Omega.{arith}
use smart_academic_planning.Prelude.Tests.{if◌then◌else◌, Bool-cases}
use smart_academic_planning.Prelude.Lists.{All, All-map}

module _ {ℓ} {A : Type ℓ} (le : A → A → Bool) where
  -- An element goes before the first one that is not smaller, so equal elements keep their order.
  unfoldable pub insert_sorted : A → List A → List A
  insert_sorted x [] = x ∷ []
  insert_sorted x (y ∷ ys) = if le x y then x ∷ y ∷ ys else y ∷ insert_sorted x ys

  unfoldable pub sorted : List A → List A
  unfolding insert_sorted
  sorted [] = []
  sorted (x ∷ xs) = insert_sorted x (sorted xs)

  abbrev pub IsSorted : List A → Type ℓ
  IsSorted [] = Unit
  IsSorted (x ∷ xs) = All (λ y. le x y ≡ true) xs × IsSorted xs

module _ {ℓ} {A : Type ℓ} (le : A → A → Bool) where
  insert_sorted-perm : (x : A) (ys : List A) → Perm (insert_sorted le x ys) (x ∷ ys)
  unfolding insert_sorted
  insert_sorted-perm x [] = Perm.refl (x ∷ [])
  insert_sorted-perm x (y ∷ ys) = elim (Bool-cases (le x y)) [
    | inl e ↦ rw e (Perm.refl (x ∷ y ∷ ys))
    | inr e ↦ rw e (Perm.trans (Perm.cons y (insert_sorted-perm x ys)) (Perm.swap x y ys))
  ]

  -- A sorted list has the elements of its argument, each as often.
  pub sorted-perm : (xs : List A) → Perm (sorted le xs) xs
  unfolding sorted
  sorted-perm [] = Perm.refl []
  sorted-perm (x ∷ xs) =
      Perm.trans (insert_sorted-perm x (sorted le xs)) (Perm.cons x (sorted-perm xs))

  insert_sorted-All {κ} :
      (P : A → Type κ) (x : A) (ys : List A) → P x → All P ys → All P (insert_sorted le x ys)
  unfolding insert_sorted
  insert_sorted-All P x [] p h = (p, tt)
  insert_sorted-All P x (y ∷ ys) p h = elim (Bool-cases (le x y)) [
    | inl e ↦ rw e (p, h)
    | inr e ↦ rw e (h.0, insert_sorted-All P x ys p h.1)
  ]

  pub sorted-All {κ} : (P : A → Type κ) (xs : List A) → All P xs → All P (sorted le xs)
  unfolding sorted
  sorted-All P [] h = tt
  sorted-All P (x ∷ xs) h = insert_sorted-All P x (sorted le xs) h.0 (sorted-All P xs h.1)

  insert_sorted-All_inv {κ} :
      (P : A → Type κ) (x : A) (ys : List A) → All P (insert_sorted le x ys) → P x × All P ys
  unfolding insert_sorted
  insert_sorted-All_inv P x [] h = (h.0, tt)
  insert_sorted-All_inv P x (y ∷ ys) h = go (le x y) h (insert_sorted-All_inv P x ys)
    where
      go :
          (b : Bool)
          → All P (if b then x ∷ y ∷ ys else y ∷ insert_sorted le x ys)
          → (All P (insert_sorted le x ys) → P x × All P ys)
          → P x × All P (y ∷ ys)
      go true h rec = (h.0, h.1)
      go false h rec = ((rec h.1).0, (h.0, (rec h.1).1))

  pub sorted-All_inv {κ} : (P : A → Type κ) (xs : List A) → All P (sorted le xs) → All P xs
  unfolding sorted
  sorted-All_inv P [] h = tt
  sorted-All_inv P (x ∷ xs) h =
      let parts = insert_sorted-All_inv P x (sorted le xs) h in
      (parts.0, sorted-All_inv P xs parts.1)

  module _ (total : (x y : A) → le x y ≡ false → le y x ≡ true)
      (trans : (x y z : A) → le x y ≡ true → le y z ≡ true → le x z ≡ true) where
    insert_sorted-IsSorted :
        (x : A) (ys : List A) → IsSorted le ys → IsSorted le (insert_sorted le x ys)
    unfolding insert_sorted
    insert_sorted-IsSorted x [] h = (tt, tt)
    insert_sorted-IsSorted x (y ∷ ys) h = elim (Bool-cases (le x y)) [
      | inl e ↦ rw e ((e, All-map (λ z. trans x y z e) ys h.0), h)
      | inr e ↦ rw e (
        insert_sorted-All (λ z. le y z ≡ true) x ys (total x y e) h.0,
        insert_sorted-IsSorted x ys h.1,
      )
    ]

    pub sorted-IsSorted : (xs : List A) → IsSorted le (sorted le xs)
    unfolding sorted
    sorted-IsSorted [] = tt
    sorted-IsSorted (x ∷ xs) = insert_sorted-IsSorted x (sorted le xs) (sorted-IsSorted xs)

-- The order of pairs: by the first components, and by the second ones where the first ones tie.
abbrev pub then_leb {ℓ κ} :
    {A : Type ℓ} {B : Type κ} (le : A → A → Bool) (le' : B → B → Bool) → A × B → A × B → Bool
then_leb le le' (a, b) (c, d) = le a c && (not (le c a) || le' b d)

module _ {ℓ κ} {A : Type ℓ} {B : Type κ} (le : A → A → Bool) (le' : B → B → Bool) where
  pub then_leb-total :
      ((x y : A) → le x y ≡ false → le y x ≡ true)
      → ((x y : B) → le' x y ≡ false → le' y x ≡ true)
      → (x y : A × B) → then_leb le le' x y ≡ false
      → then_leb le le' y x ≡ true
  then_leb-total total total' (a, b) (c, d) h = ground (arith, total a c, total c a, total' b d)

  pub then_leb_trans :
      ((x y z : A) → le x y ≡ true → le y z ≡ true → le x z ≡ true)
      → ((x y z : B) → le' x y ≡ true → le' y z ≡ true → le' x z ≡ true)
      → (x y z : A × B) → then_leb le le' x y ≡ true
      → then_leb le le' y z ≡ true
      → then_leb le le' x z ≡ true
  then_leb_trans trans trans' (a, b) (c, d) (e, f) h k =
      ground (arith, trans a c e, trans e a c, trans c e a, trans' b d f)
