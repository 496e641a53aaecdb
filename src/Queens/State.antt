-- ===== src/Queens/State.antt =====
-- The state of the search of lab7/src/solver.cpp: when it is in order, and what a queen changes.
use inp.Common.{
  ℕ, ◌+◌, ◌<◌, ◌≡◌, ◌≢◌, ◌∙◌, refl, Bool, true, false, ◌&&◌, List, arith, ◌==◌, if◌then◌else◌,
  get_or, get_or-set, length, length-set, Bool-cases, inl, inr,
}
use inp.Queens.{is_queen, check_queen, Search, tick, put, place}
use inp.Queens.Board.{IsSquare, set_cell-IsSquare, is_queen-set_cell}
use inp.Queens.Check.{IsClear, check_queen_iff}

abbrev pub flag : List Bool → ℕ → Bool
flag flags i = get_or flags i false

-- Two queens do not attack each other: they are one, or share no row, column or diagonal.
abbrev pub Peace : ℕ → ℕ → ℕ → ℕ → Type 0
Peace r c q d =
    (r ≡ q → c ≡ d) × (c ≡ d → r ≡ q) × (r + c ≡ q + d → r ≡ q) × (r + d ≡ q + c → r ≡ q)

-- The board has its shape, the flags say where queens stand, and no two queens attack each other.
pub record Valid (n : ℕ) (s : Search) : Type 0 where
  pub square : IsSquare n s.table
  pub rows : length s.row_queen ≡ n
  pub cols : length s.col_queen ≡ n
  pub flags :
      (r c : ℕ)
      → r < n
      → c < n
      → is_queen s.table r c ≡ true
      → (flag s.row_queen r ≡ true) × (flag s.col_queen c ≡ true)
  pub row_has :
      (r : ℕ)
      → r < n
      → flag s.row_queen r ≡ true
      → (c : ℕ) × (c < n) × (is_queen s.table r c ≡ true)
  pub col_has :
      (c : ℕ)
      → c < n
      → flag s.col_queen c ≡ true
      → (r : ℕ) × (r < n) × (is_queen s.table r c ≡ true)
  pub peace :
      (r c q d : ℕ)
      → (r < n) × (c < n)
      → (q < n) × (d < n)
      → is_queen s.table r c ≡ true
      → is_queen s.table q d ≡ true
      → Peace r c q d

-- The second state has the queens and flags of the first.
pub record Same (n : ℕ) (s s' : Search) : Type 0 where
  pub square : IsSquare n s'.table
  pub rows : length s'.row_queen ≡ n
  pub cols : length s'.col_queen ≡ n
  pub queens : (r c : ℕ) → is_queen s'.table r c ≡ is_queen s.table r c
  pub row_flags : (r : ℕ) → flag s'.row_queen r ≡ flag s.row_queen r
  pub col_flags : (c : ℕ) → flag s'.col_queen c ≡ flag s.col_queen c

pub Same-Valid : (n : ℕ) (s s' : Search) → Same n s s' → Valid n s → Valid n s'
Same-Valid n s s' m v = record {
  square = m.square;
  rows = m.rows;
  cols = m.cols;
  flags =
      λ r c hr hc h. ground (arith, m.queens r c, m.row_flags r, m.col_flags c, v.flags r c hr hc);
  row_has = λ r hr h.
      let (c, hc, q) = v.row_has r hr (ground (arith, m.row_flags r)) in
      (c, hc, ground (arith, m.queens r c));
  col_has = λ c hc h.
      let (r, hr, q) = v.col_has c hc (ground (arith, m.col_flags c)) in
      (r, hr, ground (arith, m.queens r c));
  peace = λ r c q d a b h k.
      v.peace r c q d a b (ground (arith, m.queens r c)) (ground (arith, m.queens q d));
}

pub Same-refl : (n : ℕ) (s : Search) → Valid n s → Same n s s
Same-refl n s v = record {
  square = v.square;
  rows = v.rows;
  cols = v.cols;
  queens = λ r c. refl;
  row_flags = λ r. refl;
  col_flags = λ c. refl;
}

pub Same-trans : (n : ℕ) (s t u : Search) → Same n s t → Same n t u → Same n s u
Same-trans n s t u a b = record {
  square = b.square;
  rows = b.rows;
  cols = b.cols;
  queens = λ r c. b.queens r c ∙ a.queens r c;
  row_flags = λ r. b.row_flags r ∙ a.row_flags r;
  col_flags = λ c. b.col_flags c ∙ a.col_flags c;
}

pub Same-tick : (n : ℕ) (s : Search) → Valid n s → Same n s (tick s)
unfolding tick
Same-tick n s v = record {
  square = v.square;
  rows = v.rows;
  cols = v.cols;
  queens = λ r c. refl;
  row_flags = λ r. refl;
  col_flags = λ c. refl;
}

-- What `put` does to the queens and the flags.
module _ (n : ℕ) (s : Search) (sq : IsSquare n s.table) (rows : length s.row_queen ≡ n)
    (cols : length s.col_queen ≡ n) (row col : ℕ) (hr : row < n) (hc : col < n) (b : Bool)
    (x : ℕ) where
  pub put-queens :
      (r c : ℕ)
      → is_queen (put row col b x s).table r c
        ≡ (if (row == r && col == c) then (x == b'Q') else is_queen s.table r c)
  unfolding put
  put-queens r c = is_queen-set_cell n s.table sq row col x hr hc r c

  pub put-row_flags :
      (r : ℕ) → flag (put row col b x s).row_queen r ≡ (if row == r then b else flag s.row_queen r)
  unfolding put
  put-row_flags r = get_or-set s.row_queen row r b false (omega arith)

  pub put-col_flags :
      (c : ℕ) → flag (put row col b x s).col_queen c ≡ (if col == c then b else flag s.col_queen c)
  unfolding put
  put-col_flags c = get_or-set s.col_queen col c b false (omega arith)

  pub put-IsSquare : IsSquare n (put row col b x s).table
  unfolding put
  put-IsSquare = set_cell-IsSquare n s.table sq row col x hr hc

  pub put-rows : length (put row col b x s).row_queen ≡ n
  unfolding put
  put-rows = length-set s.row_queen row b ∙ rows

  pub put-cols : length (put row col b x s).col_queen ≡ n
  unfolding put
  put-cols = length-set s.col_queen col b ∙ cols

-- A free row, a free column and a place that `checkqueen` allows take a queen.
module _ (n : ℕ) (s : Search) (v : Valid n s) (row col : ℕ) (hr : row < n) (hc : col < n)
    (free_row : flag s.row_queen row ≡ false) (free_col : flag s.col_queen col ≡ false) where
  placed : Search
  placed = place row col s

  queens :
      (r c : ℕ)
      → is_queen placed.table r c ≡ (if (row == r && col == c) then true else is_queen s.table r c)
  unfolding placed
  queens = put-queens n s v.square v.rows v.cols row col hr hc true b'Q'

  row_flags : (r : ℕ) → flag placed.row_queen r ≡ (if row == r then true else flag s.row_queen r)
  unfolding placed
  row_flags = put-row_flags n s v.square v.rows v.cols row col hr hc true b'Q'

  col_flags : (c : ℕ) → flag placed.col_queen c ≡ (if col == c then true else flag s.col_queen c)
  unfolding placed
  col_flags = put-col_flags n s v.square v.rows v.cols row col hr hc true b'Q'

  -- An old queen and the new one.
  apart :
      (clear : IsClear row col s.table n) (r c : ℕ)
      → r < n
      → c < n
      → is_queen s.table r c ≡ true
      → (r ≢ row) × (c ≢ col) × (r + c ≢ row + col) × (r + col ≢ row + c)
  apart clear r c pr pc q =
      let (a, b) = clear r c pr pc q in
      let (fr, fc) = v.flags r c pr pc q in
      (λ e. absurd (ground arith), λ e. absurd (ground arith), a, b)

  pub place-Valid : check_queen row col s.table n ≡ true → Valid n (place row col s)
  unfolding placed
  place-Valid ok_here =
      let clear = (check_queen_iff row col s.table n hr hc).0 ok_here in
      record {
        square = put-IsSquare n s v.square v.rows v.cols row col hr hc true b'Q';
        rows = put-rows n s v.square v.rows v.cols row col hr hc true b'Q';
        cols = put-cols n s v.square v.rows v.cols row col hr hc true b'Q';
        flags =
            λ r c pr pc h. ground (arith, queens r c, row_flags r, col_flags c, v.flags r c pr pc);
        row_has = λ r pr h. elim (Bool-cases (row == r)) [
          | inl e ↦ (col, hc, ground (arith, queens r col))
          | inr e ↦
              let (c, pc, q) = v.row_has r pr (ground (arith, row_flags r)) in
              (c, pc, ground (arith, queens r c))
        ];
        col_has = λ c pc h. elim (Bool-cases (col == c)) [
          | inl e ↦ (row, hr, ground (arith, queens row c))
          | inr e ↦
              let (r, pr, q) = v.col_has c pc (ground (arith, col_flags c)) in
              (r, pr, ground (arith, queens r c))
        ];
        peace = λ r c q d a b h k. elim (Bool-cases (row == r && col == c)) [
          | inl new ↦ elim (Bool-cases (row == q && col == d)) [
            | inl both ↦
                let e₁ : r ≡ q = ground arith in
                let e₂ : c ≡ d = ground arith in (λ _. e₂, λ _. e₁, λ _. e₁, λ _. e₁)
            | inr other ↦
                let (n₁, n₂, n₃, n₄) = apart clear q d b.0 b.1 (ground (arith, queens q d)) in
                let e₁ : row ≡ r = ground arith in let e₂ : col ≡ c = ground arith in omega arith
          ]
          | inr old ↦ elim (Bool-cases (row == q && col == d)) [
            | inl new ↦
                let (n₁, n₂, n₃, n₄) = apart clear r c a.0 a.1 (ground (arith, queens r c)) in
                let e₁ : row ≡ q = ground arith in let e₂ : col ≡ d = ground arith in omega arith
            | inr other ↦
                v.peace r c q d a b (ground (arith, queens r c)) (ground (arith, queens q d))
          ]
        ];
      }
