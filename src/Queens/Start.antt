-- ===== src/Queens/Start.antt =====
-- How `main` of lab7/src/solver.cpp marks the rows and columns of the queens it is given.
use inp.Common.{
  ℕ, zero, suc, ◌+◌, ◌≤◌, ◌<◌, ◌≡◌, refl, ap, sym, ◌∙◌, Bool, true, false, [], ◌∷◌, arith, ◌==◌,
  if◌then◌else◌, get_or, set, get_or-set, length, length-set, Bool-cases, ◌⊎◌, inl, inr, ==_refl,
}
use inp.Common.Bytes.{Bytes}
use inp.Queens.{Table, Search, mark_columns, mark_rows}
use inp.Queens.State.{flag}

abbrev queen_in : Bytes → ℕ → Bool
queen_in line k = get_or line k 0 == b'Q'

-- What `main` does for a queen.
abbrev mark : ℕ → ℕ → ℕ → Search → Search
mark c row col s =
    if c == b'Q'
    then record s { row_queen = set s.row_queen row true; col_queen = set s.col_queen col true }
    else s

mark-rows : (c row col : ℕ) (s : Search) → length (mark c row col s).row_queen ≡ length s.row_queen
mark-rows c row col s = elim (Bool-cases (c == b'Q')) [
  | inl e ↦ rw e (length-set s.row_queen row true)
  | inr e ↦ rw e refl
]

mark-cols : (c row col : ℕ) (s : Search) → length (mark c row col s).col_queen ≡ length s.col_queen
mark-cols c row col s = elim (Bool-cases (c == b'Q')) [
  | inl e ↦ rw e (length-set s.col_queen col true)
  | inr e ↦ rw e refl
]

mark-row_flag :
    (c row col : ℕ) (s : Search) (r : ℕ)
    → row < length s.row_queen
    → flag (mark c row col s).row_queen r
      ≡ (if c == b'Q' then (if row == r then true else flag s.row_queen r) else flag s.row_queen r)
mark-row_flag c row col s r h = elim (Bool-cases (c == b'Q')) [
  | inl e ↦ rw e (get_or-set s.row_queen row r true false h)
  | inr e ↦ rw e refl
]

mark-col_flag :
    (c row col : ℕ) (s : Search) (d : ℕ)
    → col < length s.col_queen
    → flag (mark c row col s).col_queen d
      ≡ (if c == b'Q' then (if col == d then true else flag s.col_queen d) else flag s.col_queen d)
mark-col_flag c row col s d h = elim (Bool-cases (c == b'Q')) [
  | inl e ↦ rw e (get_or-set s.col_queen col d true false h)
  | inr e ↦ rw e refl
]

mark-table : (c row col : ℕ) (s : Search) → (mark c row col s).table ≡ s.table
mark-table c row col s = elim (Bool-cases (c == b'Q')) [ inl e ↦ rw e refl | inr e ↦ rw e refl ]

-- The state after a line or the lines.
pub record Kept (s s' : Search) : Type 0 where
  pub table : s'.table ≡ s.table
  pub rows : length s'.row_queen ≡ length s.row_queen
  pub cols : length s'.col_queen ≡ length s.col_queen

pub mark_columns-Kept :
    (line : Bytes) (row col : ℕ) (s : Search) → Kept s (mark_columns line row col s)
unfolding mark_columns
mark_columns-Kept [] row col s = record { table = refl; rows = refl; cols = refl }
mark_columns-Kept (c ∷ line) row col s =
    let k = mark_columns-Kept line row (col + 1) (mark c row col s) in
    record {
      table = k.table ∙ mark-table c row col s;
      rows = k.rows ∙ mark-rows c row col s;
      cols = k.cols ∙ mark-cols c row col s;
    }

pub mark_rows-Kept : (lines : Table) (row : ℕ) (s : Search) → Kept s (mark_rows lines row s)
unfolding mark_rows
mark_rows-Kept [] row s = record { table = refl; rows = refl; cols = refl }
mark_rows-Kept (line ∷ lines) row s =
    let a = mark_columns-Kept line row 0 s in
    let b = mark_rows-Kept lines (row + 1) (mark_columns line row 0 s) in
    record { table = b.table ∙ a.table; rows = b.rows ∙ a.rows; cols = b.cols ∙ a.cols }

bit_why :
    (a b x y : Bool)
    → y ≡ (if a then (if b then true else x) else x)
    → y ≡ true
    → (x ≡ true) ⊎ ((a ≡ true) × (b ≡ true))
bit_why true true x y e h = inr (refl, refl)
bit_why true false x y e h = inl (sym e ∙ h)
bit_why false b x y e h = inl (sym e ∙ h)

bit_stays : (a b x y : Bool) → y ≡ (if a then (if b then true else x) else x) → x ≡ true → y ≡ true
bit_stays true true x y e h = e
bit_stays true false x y e h = e ∙ h
bit_stays false b x y e h = e ∙ h

bit_set :
    (a b x y : Bool)
    → y ≡ (if a then (if b then true else x) else x)
    → a ≡ true
    → b ≡ true
    → y ≡ true
bit_set a b x y e p q = ground arith

-- A line's marks: each has a queen or was there, and each queen has its marks.
pub record LineMarks (line : Bytes) (row col : ℕ) (s s' : Search) : Type 0 where
  pub row_why :
      (r : ℕ)
      → flag s'.row_queen r ≡ true
      → (flag s.row_queen r ≡ true) ⊎ ((k : ℕ) × (row ≡ r) × (queen_in line k ≡ true))
  pub col_why :
      (d : ℕ)
      → flag s'.col_queen d ≡ true
      → (flag s.col_queen d ≡ true) ⊎ ((k : ℕ) × (col + k ≡ d) × (queen_in line k ≡ true))
  pub row_stays : (r : ℕ) → flag s.row_queen r ≡ true → flag s'.row_queen r ≡ true
  pub col_stays : (d : ℕ) → flag s.col_queen d ≡ true → flag s'.col_queen d ≡ true
  pub marked :
      (k : ℕ)
      → queen_in line k ≡ true
      → (flag s'.row_queen row ≡ true) × (flag s'.col_queen (col + k) ≡ true)

marked_next :
    (c : ℕ) (line : Bytes) (row col : ℕ) (s : Search)
    → row < length s.row_queen
    → col < length s.col_queen
    → LineMarks line row
        (col + 1)
        (mark c row col s)
        (mark_columns line row (col + 1) (mark c row col s))
    → (k : ℕ) → queen_in (c ∷ line) k ≡ true
    → (flag (mark_columns line row (col + 1) (mark c row col s)).row_queen row ≡ true)
      × (flag (mark_columns line row (col + 1) (mark c row col s)).col_queen (col + k) ≡ true)
marked_next c line row col s p q ih zero h =
    let e : col ≡ col + 0 = omega arith in
    (
      ih.row_stays row
          (bit_set (c == b'Q') (row == row) _ _ (mark-row_flag c row col s row p) h (==_refl row)),
      ap (flag (mark_columns line row (col + 1) (mark c row col s)).col_queen) (sym e)
          ∙ ih.col_stays col (
              bit_set (c == b'Q') (col == col) _ _ (mark-col_flag c row col s col q) h
                (==_refl col)),
    )
marked_next c line row col s p q ih (suc k) h =
    let (a, b) = ih.marked k h in
    let e : col + suc k ≡ col + 1 + k = omega arith in
    (a, ap (flag (mark_columns line row (col + 1) (mark c row col s)).col_queen) e ∙ b)

pub mark_columns-LineMarks :
    (line : Bytes) (row col : ℕ) (s : Search)
    → row < length s.row_queen
    → col + length line ≤ length s.col_queen
    → LineMarks line row col s (mark_columns line row col s)
unfolding mark_columns
mark_columns-LineMarks [] row col s p q = record {
  row_why = λ r h. inl h;
  col_why = λ d h. inl h;
  row_stays = λ r h. h;
  col_stays = λ d h. h;
  marked = λ k h. absurd (ground arith);
}
mark_columns-LineMarks (c ∷ line) row col s p q =
    let s₁ = mark c row col s in
    let ih =
      mark_columns-LineMarks line row (col + 1) s₁ (omega (arith, mark-rows c row col s))
        (omega (arith, mark-cols c row col s)) in
    let rowf = (λ (r : ℕ). mark-row_flag c row col s r p) in
    let colf = (λ (d : ℕ). mark-col_flag c row col s d (omega arith)) in
    record {
      row_why = λ r h. elim (ih.row_why r h) [
        | inl old ↦ elim (bit_why (c == b'Q') (row == r) _ _ (rowf r) old) [
          | inl before ↦ inl before
          | inr (e, k) ↦ inr (0, ground arith, e)
        ]
        | inr (k, e, here) ↦ inr (suc k, e, here)
      ];
      col_why = λ d h. elim (ih.col_why d h) [
        | inl old ↦ elim (bit_why (c == b'Q') (col == d) _ _ (colf d) old) [
          | inl before ↦ inl before
          | inr (e, k) ↦ inr (0, ground arith, e)
        ]
        | inr (k, e, here) ↦ inr (suc k, omega arith, here)
      ];
      row_stays = λ r h. ih.row_stays r (bit_stays (c == b'Q') (row == r) _ _ (rowf r) h);
      col_stays = λ d h. ih.col_stays d (bit_stays (c == b'Q') (col == d) _ _ (colf d) h);
      marked = marked_next c line row col s p (omega arith) ih;
    }
