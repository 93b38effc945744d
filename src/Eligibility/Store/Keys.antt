-- ===== src/Eligibility/Store/Keys.antt =====
-- engine.py: `create_check` reads no key that is missing.
use smart_academic_planning.Prelude.{
  ℕ, suc, Bool, true, false, Option, none, some, List, [], ◌∷◌, ◌++◌, Dict, lookup, assign, values,
  lookup-assign, flat_map_by, map, any_by, ◌==◌, if◌then◌else◌, All, All-append, All-map, ◌≡◌, refl,
  ap, sym, subst, ◌∙◌, arith,
}
use smart_academic_planning.DegreeAudit.Records.{Uuid}
use smart_academic_planning.DegreeAudit.Index.Rows.{assign-All}
use smart_academic_planning.Eligibility.Result.{
  ExpressionEvaluationResult, RuleEvaluationResult, EligibilityResult,
}
use smart_academic_planning.Eligibility.Evidence.{is_none}
use smart_academic_planning.Eligibility.Store.{
  RuleEvaluation, RuleExpressionEvaluation, StoredCheck, rule_rows, rule_ids_from, note_expressions,
  expression_to_rule_id, expression_row, expression_rows, create_check, check_of,
}

-- The key is there.
abbrev HasKey : Dict Uuid → Uuid → Type 0
HasKey d k = is_none (lookup k d) ≡ false

assign-HasKey_self : (k v : Uuid) (d : Dict Uuid) → HasKey (assign k v d) k
assign-HasKey_self k v d = ground (arith, lookup-assign k k v d)

assign-HasKey : (k v : Uuid) (d : Dict Uuid) (j : Uuid) → HasKey d j → HasKey (assign k v d) j
assign-HasKey k v d j h = ground (arith, lookup-assign k j v d)

-- What holds of every value holds of one that is read.
read-All :
    (P : Uuid → Type 0) (d : Dict Uuid) (k : Uuid)
    → All P (values d)
    → HasKey d k
    → (v : Uuid) × (lookup k d ≡ some v) × P v
unfolding lookup
read-All P [] k h f = ground arith
read-All P ((j, v) ∷ d) k h f = go (j == k) (read-All P d k h.1) f
  where
    go :
        (hit : Bool)
        → (HasKey d k → (w : Uuid) × (lookup k d ≡ some w) × P w)
        → is_none (if hit then some v else lookup k d) ≡ false
        → (w : Uuid) × ((if hit then some v else lookup k d) ≡ some w) × P w
    go true rest f = (v, refl, h.0)
    go false rest f = rest f

module _ (P : Uuid → Type 0) where
  rule_ids_kept :
      (ids : Dict Uuid) (rows : List RuleEvaluation) (k : Uuid)
      → HasKey ids k
      → HasKey (rule_ids_from ids rows) k
  unfolding rule_ids_from
  rule_ids_kept ids [] k h = h
  rule_ids_kept ids (row ∷ rows) k h =
      rule_ids_kept (assign row.course_rule_id row.id ids) rows k
        (assign-HasKey row.course_rule_id row.id ids k h)

  rule_ids_values :
      (ids : Dict Uuid) (rows : List RuleEvaluation)
      → All P (values ids)
      → All (λ (row : RuleEvaluation). P row.id) rows
      → All P (values (rule_ids_from ids rows))
  unfolding rule_ids_from
  rule_ids_values ids [] h k = h
  rule_ids_values ids (row ∷ rows) h k =
      rule_ids_values (assign row.course_rule_id row.id ids) rows
        (assign-All (λ x. x) P row.course_rule_id row.id ids h k.0) k.1

rules_have_ids :
    (fresh : ℕ → Uuid) (i : ℕ) (ids : Dict Uuid) (rs : List RuleEvaluationResult)
    → All
        (λ (r : RuleEvaluationResult).
          HasKey (rule_ids_from ids (rule_rows fresh i rs)) r.course_rule_id)
        rs
unfolding rule_rows rule_ids_from
rules_have_ids fresh i ids [] = tt
rules_have_ids fresh i ids (r ∷ rs) = (
  rule_ids_kept (λ _. Unit) (assign r.course_rule_id (fresh i) ids) (rule_rows fresh (suc i) rs)
      r.course_rule_id (assign-HasKey_self r.course_rule_id (fresh i) ids),
  rules_have_ids fresh (suc i) (assign r.course_rule_id (fresh i) ids) rs,
)

-- What is noted so far, and then has the expressions too.
record Noted (P : Uuid → Type 0) (noted noted' : Dict Uuid) (es : List ExpressionEvaluationResult)
    : Type 0 where
  allowed : All P (values noted')
  kept : (k : Uuid) → HasKey noted k → HasKey noted' k
  present : All (λ (e : ExpressionEvaluationResult). HasKey noted' e.course_rule_expression_id) es

note_expressions-Noted :
    (P : Uuid → Type 0) (id : Uuid) (es : List ExpressionEvaluationResult) (noted : Dict Uuid)
    → P id
    → All P (values noted)
    → Noted P noted (note_expressions id es noted) es
unfolding note_expressions
note_expressions-Noted P id [] noted p h = record { allowed = h; kept = λ k f. f; present = tt }
note_expressions-Noted P id (e ∷ es) noted p h =
    let rest =
      note_expressions-Noted P id es (assign e.course_rule_expression_id id noted) p
        (assign-All (λ x. x) P e.course_rule_expression_id id noted h p) in
    record {
      allowed = rest.allowed;
      kept = λ k f. rest.kept k (assign-HasKey e.course_rule_expression_id id noted k f);
      present = (
        rest.kept e.course_rule_expression_id
            (assign-HasKey_self e.course_rule_expression_id id noted),
        rest.present,
      );
    }

-- The dictionary of all the expressions of the rules is built.
abbrev AreNoted :
    (Uuid → Type 0) → Dict Uuid → List RuleEvaluationResult → Option (Dict Uuid) → Type 0
AreNoted P noted rs o =
    (noted' : Dict Uuid) × (o ≡ some noted')
    × Noted P noted noted' (flat_map_by (λ (r : RuleEvaluationResult). r.expressions) rs)

expression_to_rule_id-AreNoted :
    (P : Uuid → Type 0) (ids : Dict Uuid) (rs : List RuleEvaluationResult) (noted : Dict Uuid)
    → All P (values ids)
    → All (λ (r : RuleEvaluationResult). HasKey ids r.course_rule_id) rs
    → All P (values noted)
    → AreNoted P noted rs (expression_to_rule_id ids rs noted)
unfolding expression_to_rule_id
expression_to_rule_id-AreNoted P ids [] noted a h n =
    (noted, refl, record { allowed = n; kept = λ k f. f; present = tt })
expression_to_rule_id-AreNoted P ids (r ∷ rs) noted a h n =
    go r.expressions (read-All P ids r.course_rule_id a h.0)
      (λ d m. expression_to_rule_id-AreNoted P ids rs d a h.1 m)
  where
    rest_of : List ExpressionEvaluationResult
    rest_of = flat_map_by (λ (q : RuleEvaluationResult). q.expressions) rs

    go :
        (es : List ExpressionEvaluationResult)
        → ((id : Uuid) × (lookup r.course_rule_id ids ≡ some id) × P id)
        → ((d : Dict Uuid) → All P (values d) → AreNoted P d rs (expression_to_rule_id ids rs d))
        → (noted' : Dict Uuid) × ((elim es as (λ _. Option (Dict Uuid)) [
          | [] ↦ expression_to_rule_id ids rs noted
          | e ∷ more ↦ elim (lookup r.course_rule_id ids) as (λ _. Option (Dict Uuid)) [
            | none ↦ none
            | some id ↦ expression_to_rule_id ids rs (note_expressions id (e ∷ more) noted)
          ]
        ])
            ≡ some noted')
          × Noted P noted noted' (es ++ rest_of)
    go [] read rest = rest noted n
    go (e ∷ more) (id, found, p) rest =
        let here = note_expressions-Noted P id (e ∷ more) noted p n in
        let later = rest (note_expressions id (e ∷ more) noted) here.allowed in
        (
          later.0,
          ap
                (λ (o : Option Uuid). elim o as (λ _. Option (Dict Uuid)) [
                  | none ↦ none
                  | some i ↦ expression_to_rule_id ids rs (note_expressions i (e ∷ more) noted)
                ])
                found
              ∙ later.1,
          record {
            allowed = later.2.allowed;
            kept = λ k f. later.2.kept k (here.kept k f);
            present =
                All-append
                  (λ (x : ExpressionEvaluationResult). HasKey later.0 x.course_rule_expression_id)
                  (e ∷ more) rest_of
                  (All-map (λ x f. later.2.kept x.course_rule_expression_id f) (e ∷ more)
                    here.present)
                  later.2.present;
          },
        )

-- The rows of the expressions are written, one for each, under ids that are allowed.
expression_rows-Written :
    (P : Uuid → Type 0) (rules : Dict Uuid) (es : List ExpressionEvaluationResult)
    → All P (values rules)
    → All (λ (e : ExpressionEvaluationResult). HasKey rules e.course_rule_expression_id) es
    → (rows : List RuleExpressionEvaluation) × (expression_rows rules es ≡ some rows)
      × (map (λ (x : RuleExpressionEvaluation). x.course_rule_expression_id) rows
          ≡ map (λ (e : ExpressionEvaluationResult). e.course_rule_expression_id) es)
      × All (λ (x : RuleExpressionEvaluation). P x.rule_evaluation_id) rows
unfolding expression_rows
expression_rows-Written P rules [] a h = ([], refl, refl, tt)
expression_rows-Written P rules (e ∷ es) a h =
    let read = read-All P rules e.course_rule_expression_id a h.0 in
    let rest = expression_rows-Written P rules es a h.1 in
    (
      expression_row read.0 e ∷ rest.0,
      cc,
      ap (λ l. e.course_rule_expression_id ∷ l) rest.2,
      (read.2, rest.3),
    )

row_ids_present :
    (rows : List RuleEvaluation)
    → All
        (λ (row : RuleEvaluation). any_by (λ (x : RuleEvaluation). x.id == row.id) rows ≡ true)
        rows
row_ids_present [] = tt
row_ids_present (row ∷ rows) =
    (ground arith, All-map (λ x h. ground arith) rows (row_ids_present rows))

-- The expressions of the result are those of its rules.
abbrev pub IsFlat : EligibilityResult → Type 0
IsFlat r =
    r.expression_evaluations
    ≡ flat_map_by (λ (q : RuleEvaluationResult). q.expressions) r.rule_evaluations

-- One row for each expression, and each refers to the row of a rule.
abbrev pub IsLinked : EligibilityResult → StoredCheck → Type 0
IsLinked r check =
    (map (λ (x : RuleExpressionEvaluation). x.course_rule_expression_id)
        check.expression_evaluations
      ≡ map (λ (e : ExpressionEvaluationResult). e.course_rule_expression_id)
          r.expression_evaluations)
    × All
        (λ (x : RuleExpressionEvaluation).
          any_by (λ (row : RuleEvaluation). row.id == x.rule_evaluation_id) check.rule_evaluations
          ≡ true)
        check.expression_evaluations

pub create_check-IsLinked :
    (fresh : ℕ → Uuid) (r : EligibilityResult)
    → IsFlat r
    → (check : StoredCheck) × (create_check fresh r ≡ some check) × IsLinked r check
unfolding create_check
create_check-IsLinked fresh r flat =
    let rows = rule_rows fresh 0 r.rule_evaluations in
    let P : Uuid → Type 0 = λ id. any_by (λ (row : RuleEvaluation). row.id == id) rows ≡ true in
    let noted =
      expression_to_rule_id-AreNoted P (rule_ids_from [] rows) r.rule_evaluations []
        (rule_ids_values P [] rows tt (row_ids_present rows))
        (rules_have_ids fresh 0 [] r.rule_evaluations) tt in
    let written = expression_rows-Written P noted.0 r.expression_evaluations noted.2.allowed (
      subst (All (λ (e : ExpressionEvaluationResult). HasKey noted.0 e.course_rule_expression_id))
        (sym flat) noted.2.present) in
    (check_of r rows written.0, cc, (written.2, written.3))
