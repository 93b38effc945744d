-- ===== src/DegreeAudit/Allocator/Exclusive.antt =====
-- allocator.py: `is_available` after `reserve`.
use smart_academic_planning.Prelude.{
  Bool, true, false, not, ◌||◌, List, [], ◌≡◌, refl, ◌&&◌, sym, arith,
}
use smart_academic_planning.DegreeAudit.Result.{
  SourceKey, SourceKind, attempt, transfer, waiver, substitution, source_eq, kind_eq,
}
use smart_academic_planning.DegreeAudit.Monad.{AuditState}
use smart_academic_planning.DegreeAudit.Frames.{Ends, Adds, Adds-refl}
use mathlib.Core.List.{append-nil}
use smart_academic_planning.DegreeAudit.Allocator.{is_used, add_source, is_available, reserve}

kind_eq_refl : (k : SourceKind) → kind_eq k k ≡ true
kind_eq_refl attempt = refl
kind_eq_refl transfer = refl
kind_eq_refl waiver = refl
kind_eq_refl substitution = refl

pub source_eq_refl : (k : SourceKey) → source_eq k k ≡ true
source_eq_refl (k, i) = ground (arith, kind_eq_refl k)

kind_eq→eq : (k l : SourceKind) → kind_eq k l ≡ true → k ≡ l
kind_eq→eq k l h = ground arith

pub source_eq→eq : (k l : SourceKey) → source_eq k l ≡ true → k ≡ l
source_eq→eq (k, i) (l, j) h = ground (arith, kind_eq→eq k l)

-- After a source is added, it and the sources that were used before are the used ones.
pub is_used-add_source :
    (key k : SourceKey) (used : List SourceKey)
    → is_used key (add_source k used) ≡ (source_eq k key || is_used key used)
unfolding is_used add_source
is_used-add_source key k used = ground (arith, source_eq→eq k key)

abbrev pub Reserves : SourceKey → AuditState → Bool → AuditState → Type 0
Reserves key s shared s' = (shared ≡ is_used key s.used_sources) × Adds s s'

-- A reservation is reported as shared exactly if the source was used before.
module _ (key : SourceKey) (overlap : Bool) (s : AuditState) where
  pub reserve-Ends : (F : Type 0) → Ends F (reserve key overlap s) (Reserves key s)
  unfolding reserve is_used
  reserve-Ends F = go overlap
    where
      go : (overlap : Bool) → Ends F (reserve key overlap s) (Reserves key s)
      go true = (refl, Adds-refl s)
      go false = (
        refl,
        record {
          keeps_sources = λ k e. ground (arith, is_used-add_source k key s.used_sources);
          same_results = refl;
          added = [];
          appended = sym (append-nil s.warnings);
        },
      )

-- After a reservation without overlap a source is available to a request without overlap exactly if
-- it was available before and is another one; and the reservation reports whether its source was not
-- available.
pub is_available-reserve :
    (key other : SourceKey) (s : AuditState)
    → Ends ⊥ (reserve key false s) (λ shared s'.
      (is_available s'.used_sources other false
        ≡ (not (source_eq key other) && is_available s.used_sources other false))
      × (shared ≡ not (is_available s.used_sources key false)))
unfolding reserve is_available
is_available-reserve key other s =
    (ground (arith, is_used-add_source other key s.used_sources), ground arith)
