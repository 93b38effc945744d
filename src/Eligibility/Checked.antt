-- ===== src/Eligibility/Checked.antt =====
-- The value of a call of course_eligibility/engine.py, or what it raises.
use smart_academic_planning.Prelude.{
  Bool, true, false, Option, none, some, List, [], ◌∷◌, All, ◌≡◌, refl, sym, ap, subst, ◌↔◌, arith,
}
use smart_academic_planning.Eligibility.Result.{
  EligibilityFailure, ValidationCode, validation_error,
}

pub data Checked (A : Type 0) : Type 0 where
  ok : A → Checked A
  raise : EligibilityFailure → Checked A

infixl 5 ◌>>=◌ ◌>>◌
abbrev pub ◌>>=◌ : {A B : Type 0} → Checked A → (A → Checked B) → Checked B
m >>= f = elim m [ ok a ↦ f a | raise e ↦ raise e ]

abbrev pub ◌>>◌ : {B : Type 0} → Checked (Unit {0}) → Checked B → Checked B
m >> k = m >>= λ _. k

-- `if not test: raise CourseEligibilityValidationError(code, ...)`
abbrev pub require : Bool → ValidationCode → Checked (Unit {0})
require true code = ok tt
require false code = raise (validation_error code)

-- `if row is None: raise CourseEligibilityValidationError(code, ...)`
abbrev pub require_some : {A : Type 0} → Option A → ValidationCode → Checked A
require_some none code = raise (validation_error code)
require_some (some a) code = ok a

-- A loop that collects what each step returns.
unfoldable pub each : {A B : Type 0} → (A → Checked B) → List A → Checked (List B)
each f [] = ok []
each f (x ∷ xs) = do y ← f x; ys ← each f xs; ok (y ∷ ys)

-- The call returns.
abbrev pub IsOk : {A : Type 0} → Checked A → Type 0
IsOk (ok a) = Unit
IsOk (raise e) = ⊥

pub bind-IsOk :
    {A B : Type 0} (m : Checked A) (f : A → Checked B)
    → IsOk m
    → ((a : A) → IsOk (f a))
    → IsOk (m >>= f)
bind-IsOk (ok a) f h k = k a
bind-IsOk (raise e) f h k = h

pub each-IsOk :
    {A B : Type 0} (f : A → Checked B) (xs : List A) → All (λ x. IsOk (f x)) xs → IsOk (each f xs)
unfolding each
each-IsOk f [] h = tt
each-IsOk f (x ∷ xs) h =
    bind-IsOk (f x) _ h.0 λ y. bind-IsOk (each f xs) _ (each-IsOk f xs h.1) λ ys. tt

pub require-IsOk :
    (b : Bool) (code : ValidationCode) {B : Type 0} (m : Checked B)
    → IsOk (require b code >> m) ↔ ((b ≡ true) × IsOk m)
require-IsOk true code m = (λ h. (refl, h), λ h. h.1)
require-IsOk false code m = (λ h. absurd h, λ h. ground (arith, h.0))

pub require_some-IsOk :
    {A B : Type 0} (o : Option A) (code : ValidationCode) (f : A → Checked B)
    → IsOk (require_some o code >>= f) ↔ ((a : A) × (o ≡ some a) × IsOk (f a))
require_some-IsOk none code f = (λ h. absurd h, λ h. ground (arith, h.1))
require_some-IsOk (some a) code f = (
  λ h. (a, refl, h),
  λ h.
      subst (λ x. IsOk (f x)) (sym (ap (λ (o : Option _). elim o [ none ↦ a | some b ↦ b ]) h.1))
        h.2,
)

pub bind-IsOk_iff :
    {A B : Type 0} (m : Checked A) (f : A → Checked B)
    → ((a : A) → IsOk (f a))
    → IsOk (m >>= f) ↔ IsOk m
bind-IsOk_iff (ok a) f k = (λ h. tt, λ h. k a)
bind-IsOk_iff (raise e) f k = (λ h. h, λ h. h)

-- What is returned has the property.
abbrev pub AllOk : {A : Type 0} → (A → Type 0) → Checked A → Type 0
AllOk P (ok a) = P a
AllOk P (raise e) = Unit

pub bind-AllOk :
    {A B : Type 0} (P : A → Type 0) (Q : B → Type 0) (m : Checked A) (f : A → Checked B)
    → AllOk P m
    → ((a : A) → P a → AllOk Q (f a))
    → AllOk Q (m >>= f)
bind-AllOk P Q (ok a) f h k = k a h
bind-AllOk P Q (raise e) f h k = tt

pub each-AllOk :
    {A B : Type 0} (P : B → Type 0) (f : A → Checked B) (xs : List A)
    → ((x : A) → AllOk P (f x))
    → AllOk (All P) (each f xs)
unfolding each
each-AllOk P f [] h = tt
each-AllOk P f (x ∷ xs) h =
    bind-AllOk P (All P) (f x) _ (h x) λ y here.
      bind-AllOk (All P) (All P) (each f xs) _ (each-AllOk P f xs h) λ ys rest. (here, rest)

pub Ok-Returns :
    {A : Type 0} (P : A → Type 0) (m : Checked A) → IsOk m → AllOk P m → (a : A) × (m ≡ ok a) × P a
Ok-Returns P (ok a) h k = (a, refl, k)
Ok-Returns P (raise e) h k = absurd h
