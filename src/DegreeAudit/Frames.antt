-- ===== src/DegreeAudit/Frames.antt =====
-- What a step of the audit leaves of the state, and how such facts are proved of a step's parts.
use smart_academic_planning.Prelude.{
  ℕ, Bool, true, false, if◌then◌else◌, Option, none, some, List, [], ◌∷◌, ◌++◌, lookup, ◌≡◌, refl,
  sym, ap, ◌∙◌, All, All-append,
}
use mathlib.Core.List.{append_assoc, append-nil}
use smart_academic_planning.DegreeAudit.Result.{SourceKey, AuditWarningResult, RequirementResult}
use smart_academic_planning.DegreeAudit.Allocator.{is_used}
use smart_academic_planning.DegreeAudit.Monad.{
  AuditState, Outcome, ok, raise, Audit, ◌>>=◌, collect, gather,
}

-- The step returns and `Q` holds of what it returns, or it fails and `F` holds. `F` is `⊥` where
-- the step is to return, and `Unit` where a failure says nothing.
abbrev pub Ends : {A : Type 0} → Type 0 → Outcome A → (A → AuditState → Type 0) → Type 0
Ends F (ok a s) Q = Q a s
Ends F (raise e) Q = F

module _ {A : Type 0} (F : Type 0) where
  pub Ends-map :
      (P Q : A → AuditState → Type 0) (o : Outcome A)
      → Ends F o P
      → ((a : A) (s : AuditState) → P a s → Q a s)
      → Ends F o Q
  Ends-map P Q (ok a s) h f = f a s h
  Ends-map P Q (raise e) h f = h

  pub Ends-bind :
      {B : Type 0} (P : A → AuditState → Type 0) (Q : B → AuditState → Type 0) (m : Audit A)
      (f : A → Audit B) (s : AuditState)
      → Ends F (m s) P
      → ((a : A) (s' : AuditState) → P a s' → Ends F (f a s') Q)
      → Ends F ((m >>= f) s) Q
  Ends-bind {B} P Q m f s h k = go (m s) h
    where
      go : (o : Outcome A) → Ends F o P → Ends F (elim o [ ok a s' ↦ f a s' | raise e ↦ raise e ]) Q
      go (ok a s') h = k a s' h
      go (raise e) h = h

-- A step that branches on a computed value.
module _ {A : Type 0} (F : Type 0) (Q : A → AuditState → Type 0) (s : AuditState) where
  pub Ends-option :
      {C : Type 0} (o : Option C) (n : Audit A) (f : C → Audit A)
      → Ends F (n s) Q
      → ((c : C) → Ends F (f c s) Q)
      → Ends F ((elim o as (λ _. Audit A) [ none ↦ n | some c ↦ f c ]) s) Q
  Ends-option none n f h k = h
  Ends-option (some c) n f h k = k c

  pub Ends-if :
      (b : Bool) (m n : Audit A)
      → Ends F (m s) Q
      → Ends F (n s) Q
      → Ends F ((if b then m else n) s) Q
  Ends-if true m n h k = h
  Ends-if false m n h k = k

  pub Ends-bool :
      (b : Bool) (m n : Audit A)
      → Ends F (m s) Q
      → Ends F (n s) Q
      → Ends F ((elim b as (λ _. Audit A) [ true ↦ m | false ↦ n ]) s) Q
  Ends-bool true m n h k = h
  Ends-bool false m n h k = k

  -- The same, where a branch may use which way the test went.
  pub Ends-if_eq :
      (b : Bool) (m n : Audit A)
      → (b ≡ true → Ends F (m s) Q)
      → (b ≡ false → Ends F (n s) Q)
      → Ends F ((if b then m else n) s) Q
  Ends-if_eq true m n h k = h refl
  Ends-if_eq false m n h k = k refl

  pub Ends-bool_eq :
      (b : Bool) (m n : Audit A)
      → (b ≡ true → Ends F (m s) Q)
      → (b ≡ false → Ends F (n s) Q)
      → Ends F ((elim b as (λ _. Audit A) [ true ↦ m | false ↦ n ]) s) Q
  Ends-bool_eq true m n h k = h refl
  Ends-bool_eq false m n h k = k refl

-- The step has only appended warnings.
pub record OnlyWarns (s s' : AuditState) : Type 0 where
  pub same_sources : s'.used_sources ≡ s.used_sources
  pub same_results : s'.evaluated ≡ s.evaluated
  pub added : List AuditWarningResult
  pub appended : s'.warnings ≡ s.warnings ++ added

pub OnlyWarns-refl : (s : AuditState) → OnlyWarns s s
OnlyWarns-refl s = record {
  same_sources = refl;
  same_results = refl;
  added = [];
  appended = sym (append-nil s.warnings);
}

pub OnlyWarns-trans : {s t u : AuditState} → OnlyWarns s t → OnlyWarns t u → OnlyWarns s u
OnlyWarns-trans {s} {t} {u} h k = record {
  same_sources = k.same_sources ∙ h.same_sources;
  same_results = k.same_results ∙ h.same_results;
  added = h.added ++ k.added;
  appended =
      k.appended ∙ (ap (λ ws. ws ++ k.added) h.appended ∙ append_assoc s.warnings h.added k.added);
}

pub OnlyWarns-warn :
    (w : AuditWarningResult) (s : AuditState)
    → OnlyWarns s (record s { warnings = s.warnings ++ w ∷ [] })
OnlyWarns-warn w s = record {
  same_sources = refl;
  same_results = refl;
  added = w ∷ [];
  appended = refl;
}

-- Nothing is taken back: reserved sources, stored results and warnings stay.
pub record Extends (s s' : AuditState) : Type 0 where
  pub keeps_sources :
      (key : SourceKey) → is_used key s.used_sources ≡ true → is_used key s'.used_sources ≡ true
  pub keeps_results :
      (id : ℕ) (r : RequirementResult)
      → lookup id s.evaluated ≡ some r
      → lookup id s'.evaluated ≡ some r
  pub added : List AuditWarningResult
  pub appended : s'.warnings ≡ s.warnings ++ added

pub Extends-refl : (s : AuditState) → Extends s s
Extends-refl s = record {
  keeps_sources = λ _ h. h;
  keeps_results = λ _ _ h. h;
  added = [];
  appended = sym (append-nil s.warnings);
}

pub Extends-trans : {s t u : AuditState} → Extends s t → Extends t u → Extends s u
Extends-trans {s} {t} {u} h k = record {
  keeps_sources = λ key e. k.keeps_sources key (h.keeps_sources key e);
  keeps_results = λ id r e. k.keeps_results id r (h.keeps_results id r e);
  added = h.added ++ k.added;
  appended =
      k.appended ∙ (ap (λ ws. ws ++ k.added) h.appended ∙ append_assoc s.warnings h.added k.added);
}

pub OnlyWarns→Extends : {s s' : AuditState} → OnlyWarns s s' → Extends s s'
OnlyWarns→Extends {s} {s'} h = record {
  keeps_sources = λ key e. ap (is_used key) h.same_sources ∙ e;
  keeps_results = λ id r e. ap (lookup id) h.same_results ∙ e;
  added = h.added;
  appended = h.appended;
}

-- The value that a step of `collect` returns is `None` or satisfies `P`.
abbrev pub OptionAll {κ} : {B : Type 0} → (B → Type κ) → Option B → Type κ
OptionAll P none = Unit
OptionAll P (some b) = P b

module _ (F : Type 0) {A B : Type 0} (P : B → Type 0) where
  -- A loop of steps that only warn, and whose values satisfy `P`.
  pub collect-Ends :
      (f : A → Audit (Option B)) (xs : List A)
      → All
          (λ x. (s : AuditState) → Ends F (f x s) (λ found s'. OptionAll P found × OnlyWarns s s'))
          xs
      → (s : AuditState) → Ends F (collect f xs s) (λ found s'. All P found × OnlyWarns s s')
  unfolding collect
  collect-Ends f [] h s = (tt, OnlyWarns-refl s)
  collect-Ends f (x ∷ xs) h s = Ends-bind F _ _ (f x) _ s (h.0 s) λ found s₁ p.
      Ends-bind F _ _ (collect f xs) _ s₁ (collect-Ends f xs h.1 s₁)
        λ rest s₂ q. (All-found found rest p.0 q.0, OnlyWarns-trans p.1 q.1)
    where
      All-found :
          (found : Option B) (rest : List B)
          → OptionAll P found
          → All P rest
          → All P (elim found [ none ↦ rest | some b ↦ b ∷ rest ])
      All-found none rest p q = q
      All-found (some b) rest p q = (p, q)

  pub gather-Ends :
      (f : A → Audit (List B)) (xs : List A)
      → All (λ x. (s : AuditState) → Ends F (f x s) (λ found s'. All P found × OnlyWarns s s')) xs
      → (s : AuditState) → Ends F (gather f xs s) (λ found s'. All P found × OnlyWarns s s')
  unfolding gather
  gather-Ends f [] h s = (tt, OnlyWarns-refl s)
  gather-Ends f (x ∷ xs) h s = Ends-bind F _ _ (f x) _ s (h.0 s) λ found s₁ p.
      Ends-bind F _ _ (gather f xs) _ s₁ (gather-Ends f xs h.1 s₁)
        λ rest s₂ q. (All-append P found rest p.0 q.0, OnlyWarns-trans p.1 q.1)

-- Sources may have been reserved and warnings appended; the stored results are untouched.
pub record Adds (s s' : AuditState) : Type 0 where
  pub keeps_sources :
      (key : SourceKey) → is_used key s.used_sources ≡ true → is_used key s'.used_sources ≡ true
  pub same_results : s'.evaluated ≡ s.evaluated
  pub added : List AuditWarningResult
  pub appended : s'.warnings ≡ s.warnings ++ added

pub OnlyWarns→Adds : {s s' : AuditState} → OnlyWarns s s' → Adds s s'
OnlyWarns→Adds {s} {s'} h = record {
  keeps_sources = λ key e. ap (is_used key) h.same_sources ∙ e;
  same_results = h.same_results;
  added = h.added;
  appended = h.appended;
}

pub Adds-refl : (s : AuditState) → Adds s s
Adds-refl s = OnlyWarns→Adds (OnlyWarns-refl s)

pub Adds-trans : {s t u : AuditState} → Adds s t → Adds t u → Adds s u
Adds-trans {s} {t} {u} h k = record {
  keeps_sources = λ key e. k.keeps_sources key (h.keeps_sources key e);
  same_results = k.same_results ∙ h.same_results;
  added = h.added ++ k.added;
  appended =
      k.appended ∙ (ap (λ ws. ws ++ k.added) h.appended ∙ append_assoc s.warnings h.added k.added);
}

pub Adds→Extends : {s s' : AuditState} → Adds s s' → Extends s s'
Adds→Extends {s} {s'} h = record {
  keeps_sources = h.keeps_sources;
  keeps_results = λ id r e. ap (lookup id) h.same_results ∙ e;
  added = h.added;
  appended = h.appended;
}
