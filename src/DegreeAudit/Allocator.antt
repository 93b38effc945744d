-- ===== src/DegreeAudit/Allocator.antt =====
-- apps/api/app/services/degree_audit/allocator.py: `AuditAllocator`, over the list of the sources
-- that it has reserved.
pub mod Exclusive
use smart_academic_planning.Prelude.{Bool, true, false, not, ◌||◌, List, [], ◌∷◌, if◌then◌else◌}
use smart_academic_planning.DegreeAudit.Result.{SourceKey, source_eq}
use smart_academic_planning.DegreeAudit.Monad.{AuditState, Audit, Outcome, ok}

-- `source_key in self._used_sources`
unfoldable pub is_used : SourceKey → List SourceKey → Bool
is_used key [] = false
is_used key (k ∷ used) = source_eq k key || is_used key used

-- `self._used_sources.add(source_key)`
unfoldable pub add_source : SourceKey → List SourceKey → List SourceKey
add_source key used = if is_used key used then used else key ∷ used

unfoldable pub is_available : List SourceKey → SourceKey → Bool → Bool
is_available used key allows_overlap = allows_overlap || not (is_used key used)

unfoldable pub reserve : SourceKey → Bool → Audit Bool
reserve key allows_overlap s =
    ok (is_used key s.used_sources)
      (if allows_overlap then s else record s { used_sources = add_source key s.used_sources })
