-- ===== src/DegreeAudit/Keys.antt =====
-- The tuples by which the degree audit sorts, with Python's order of tuples.
use smart_academic_planning.Prelude.{
  ℕ, Bool, true, false, not, ◌&&◌, ◌||◌, Text, text_eq, text_leb, ltb, leb, ◌==◌, text_eq→eq,
  text_eq_refl, text_leb-total, text_leb_trans, text_leb_antisymm, ◌≡◌, arith,
}

-- Of a candidate: (state_rank, type_rank, str(source id)).
abbrev pub SortKey : Type 0
SortKey = ℕ × ℕ × ℕ

unfoldable pub key_leb : SortKey → SortKey → Bool
key_leb (a, b, c) (d, e, f) = ltb a d || (a == d && (ltb b e || (b == e && leb c f)))

-- Of an option or an attempt: a number and an id.
unfoldable pub id_leb : (ℕ × ℕ) → (ℕ × ℕ) → Bool
id_leb (a, i) (b, j) = ltb a b || (a == b && leb i j)

-- Of a node or a result: (display_order, code, str(id)).
unfoldable pub entry_leb : (ℕ × Text × ℕ) → (ℕ × Text × ℕ) → Bool
entry_leb (a, s, i) (b, t, j) =
    ltb a b || (a == b && ((text_leb s t && not (text_eq s t)) || (text_eq s t && leb i j)))

pub key_leb-total : (x y : SortKey) → key_leb x y ≡ false → key_leb y x ≡ true
unfolding key_leb
key_leb-total (a, b, c) (d, e, f) h = ground arith

pub key_leb_trans : (x y z : SortKey) → key_leb x y ≡ true → key_leb y z ≡ true → key_leb x z ≡ true
unfolding key_leb
key_leb_trans (a, b, c) (d, e, f) (g, i, j) h k = ground arith

pub id_leb-total : (x y : ℕ × ℕ) → id_leb x y ≡ false → id_leb y x ≡ true
unfolding id_leb
id_leb-total (a, i) (b, j) h = ground arith

pub id_leb_trans : (x y z : ℕ × ℕ) → id_leb x y ≡ true → id_leb y z ≡ true → id_leb x z ≡ true
unfolding id_leb
id_leb_trans (a, i) (b, j) (c, k) h l = ground arith

pub entry_leb-total : (x y : ℕ × Text × ℕ) → entry_leb x y ≡ false → entry_leb y x ≡ true
unfolding entry_leb
entry_leb-total (a, s, i) (b, t, j) h =
    ground (arith, text_leb-total s t, text_eq→eq s t, text_eq→eq t s, text_eq_refl s)

pub entry_leb_trans :
    (x y z : ℕ × Text × ℕ) → entry_leb x y ≡ true → entry_leb y z ≡ true → entry_leb x z ≡ true
unfolding entry_leb
entry_leb_trans (a, s, i) (b, t, j) (c, u, k) h l = ground (
  arith,
  text_leb_trans s t u,
  text_eq→eq s t,
  text_eq→eq t u,
  text_eq→eq s u,
  text_eq_refl s,
  text_leb_antisymm s t,
  text_leb_antisymm t s,
)
