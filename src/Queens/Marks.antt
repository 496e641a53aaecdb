-- ===== src/Queens/Marks.antt =====
-- The marks that `main` of lab7/src/solver.cpp makes for a whole board.
use inp.Common.{
  ℕ, zero, suc, ◌+◌, ◌≤◌, ◌<◌, ◌≡◌, ap, ◌∙◌, true, [], ◌∷◌, arith, get_or, length, ◌⊎◌, inl, inr,
}
use inp.Common.Bytes.{Bytes}
use inp.Queens.{Table, is_queen, Search, mark_columns, mark_rows}
use inp.Queens.State.{flag}
use inp.Queens.Start.{mark_columns-Kept, LineMarks, mark_columns-LineMarks}

-- The marks of the lines from `row` on.
pub record Marks (lines : Table) (row : ℕ) (s s' : Search) : Type 0 where
  pub row_why :
      (r : ℕ)
      → flag s'.row_queen r ≡ true
      → (flag s.row_queen r ≡ true) ⊎ ((i k : ℕ) × (row + i ≡ r) × (is_queen lines i k ≡ true))
  pub col_why :
      (d : ℕ)
      → flag s'.col_queen d ≡ true
      → (flag s.col_queen d ≡ true) ⊎ ((i k : ℕ) × (k ≡ d) × (is_queen lines i k ≡ true))
  pub row_stays : (r : ℕ) → flag s.row_queen r ≡ true → flag s'.row_queen r ≡ true
  pub col_stays : (d : ℕ) → flag s.col_queen d ≡ true → flag s'.col_queen d ≡ true
  pub marked :
      (i k : ℕ)
      → is_queen lines i k ≡ true
      → (flag s'.row_queen (row + i) ≡ true) × (flag s'.col_queen k ≡ true)

-- The marks of a line and of the lines after it.
module _ (line : Bytes) (lines : Table) (row : ℕ) (s t u : Search) (a : LineMarks line row 0 s t)
    (b : Marks lines (row + 1) t u) where
  both_marked :
      (i k : ℕ)
      → is_queen (line ∷ lines) i k ≡ true
      → (flag u.row_queen (row + i) ≡ true) × (flag u.col_queen k ≡ true)
  unfolding is_queen
  both_marked zero k h =
      let (x, y) = a.marked k h in
      let e : row + 0 ≡ row = omega arith in
      let f : k ≡ 0 + k = omega arith in
      (ap (flag u.row_queen) e ∙ b.row_stays row x, b.col_stays k (ap (flag t.col_queen) f ∙ y))
  both_marked (suc i) k h =
      let (x, y) = b.marked i k h in
      let e : row + suc i ≡ row + 1 + i = omega arith in (ap (flag u.row_queen) e ∙ x, y)

  both-Marks : Marks (line ∷ lines) row s u
  unfolding is_queen
  both-Marks = record {
    row_why = λ r h. elim (b.row_why r h) [
      | inr (i, k, e, q) ↦ inr (suc i, k, omega arith, q)
      | inl old ↦ elim (a.row_why r old) [
        | inl before ↦ inl before
        | inr (k, e, q) ↦ inr (0, k, omega arith, q)
      ]
    ];
    col_why = λ d h. elim (b.col_why d h) [
      | inr (i, k, e, q) ↦ inr (suc i, k, e, q)
      | inl old ↦ elim (a.col_why d old) [
        | inl before ↦ inl before
        | inr (k, e, q) ↦ inr (0, k, omega arith, q)
      ]
    ];
    row_stays = λ r h. b.row_stays r (a.row_stays r h);
    col_stays = λ d h. b.col_stays d (a.col_stays d h);
    marked = both_marked;
  }

pub mark_rows-Marks :
    (lines : Table) (row : ℕ) (s : Search)
    → row + length lines ≤ length s.row_queen
    → ((i : ℕ) → i < length lines → length (get_or lines i []) ≤ length s.col_queen)
    → Marks lines row s (mark_rows lines row s)
unfolding mark_rows is_queen
mark_rows-Marks [] row s p w = record {
  row_why = λ r h. inl h;
  col_why = λ d h. inl h;
  row_stays = λ r h. h;
  col_stays = λ d h. h;
  marked = λ i k h. absurd (ground arith);
}
mark_rows-Marks (line ∷ lines) row s p w =
    let t = mark_columns line row 0 s in
    let kept = mark_columns-Kept line row 0 s in
    both-Marks line lines row s t (mark_rows lines (row + 1) t)
      (mark_columns-LineMarks line row 0 s (omega arith) (omega (arith, w 0 (omega arith))))
      (mark_rows-Marks lines (row + 1) t (omega (arith, kept.rows))
        (λ i h. omega (arith, kept.cols, w (suc i) (omega arith))))
