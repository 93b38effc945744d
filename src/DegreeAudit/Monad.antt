-- ===== src/DegreeAudit/Monad.antt =====
-- The state that one audit run changes, and the steps that read and write it: the warnings that
-- `AuditContext` collects, the sources that `AuditAllocator` has reserved, and the results that
-- `evaluate_node` has stored. A step may raise `KeyError`, or run out of Python's stack.
use smart_academic_planning.Prelude.{Option, none, some, List, [], ◌∷◌, ◌++◌, Dict}
use smart_academic_planning.DegreeAudit.Result.{SourceKey, AuditWarningResult, RequirementResult}

pub record AuditState : Type 0 where
  pub warnings : List AuditWarningResult
  pub used_sources : List SourceKey
  pub evaluated : Dict RequirementResult

pub data Failure : Type 0 where
  key_error recursion_error program_version_not_found : Failure

pub data Outcome (A : Type 0) : Type 0 where
  ok : A → AuditState → Outcome A
  raise : Failure → Outcome A

abbrev pub Audit : Type 0 → Type 0
Audit A = AuditState → Outcome A

infixl 5 ◌>>=◌ ◌>>◌
abbrev pub ◌>>=◌ : {A B : Type 0} → Audit A → (A → Audit B) → Audit B
◌>>=◌ m f s = elim (m s) [ ok a s' ↦ f a s' | raise e ↦ raise e ]

abbrev pub ◌>>◌ : {B : Type 0} → Audit (Unit {0}) → Audit B → Audit B
m >> k = m >>= λ _. k

abbrev pub return : {A : Type 0} → A → Audit A
return a s = ok a s

abbrev pub fail : {A : Type 0} → Failure → Audit A
fail e s = raise e

abbrev pub get : Audit AuditState
get s = ok s s

-- `self.warnings.append(warning)`
abbrev pub warn : AuditWarningResult → Audit (Unit {0})
warn w s = ok tt (record s { warnings = s.warnings ++ w ∷ [] })

-- A loop that appends what the step returns, unless that is `None`.
unfoldable pub collect : {A B : Type 0} → (A → Audit (Option B)) → List A → Audit (List B)
collect f [] = return []
collect f (x ∷ xs) = do
  found ← f x
  rest ← collect f xs
  return (elim found [ none ↦ rest | some b ↦ b ∷ rest ])

-- A loop that extends the result by the list that the step returns.
unfoldable pub gather : {A B : Type 0} → (A → Audit (List B)) → List A → Audit (List B)
gather f [] = return []
gather f (x ∷ xs) = do found ← f x; rest ← gather f xs; return (found ++ rest)
