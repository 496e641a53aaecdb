-- ===== src/Queens.antt =====
-- lab7/src/solver.cpp: the backtracking search for N queens. The board is a vector of strings; the
-- model reads a place out of range as no queen, where the program's behaviour is undefined, and the
-- theorems are about boards of `n` rows and `n` columns, on which no access is out of range.
pub mod Board
pub mod Check
pub mod State
pub mod Sound
pub mod Complete
pub mod Solve
pub mod Start
pub mod Marks
pub mod Begin
pub mod Moves
mod Tests
use inp.Common.{
  ℕ, zero, suc, ◌+◌, ◌-◌, Bool, true, false, ◌&&◌, ◌||◌, List, [], ◌∷◌, ◌++◌, ◌==◌, ltb, leb,
  if◌then◌else◌, get_or, set, replicate,
}
use inp.Common.Bytes.{Bytes}

-- `MAX_N`, and the last row of `solveNQueen`.
abbrev pub max_n : ℕ
max_n = 30

abbrev pub Table : Type 0
Table = List Bytes

-- `table[x][y] == 'Q'`
unfoldable pub is_queen : Table → ℕ → ℕ → Bool
is_queen table x y = get_or (get_or table x []) y 0 == b'Q'

-- `table[x][y] = c`
unfoldable pub set_cell : Table → ℕ → ℕ → ℕ → Table
set_cell table x y c = set table x (set (get_or table x []) y c)

-- The four tests of one round of `checkqueen`. A difference that would be negative fails its test.
unfoldable pub hits : ℕ → ℕ → Table → ℕ → ℕ → Bool
hits x y table n i =
    (ltb (x + i) n && (ltb (y + i) n && is_queen table (x + i) (y + i)))
    || ((leb i x && (leb i y && is_queen table (x - i) (y - i)))
        || ((ltb (x + i) n && (leb i y && is_queen table (x + i) (y - i)))
            || (leb i x && (ltb (y + i) n && is_queen table (x - i) (y + i)))))

-- The rounds of `checkqueen` from `i` on.
unfoldable pub check_rounds : ℕ → ℕ → ℕ → ℕ → Table → ℕ → Bool
check_rounds zero i x y table n = true
check_rounds (suc left) i x y table n = elim (hits x y table n i) [
  | true ↦ false
  | false ↦ check_rounds left (i + 1) x y table n
]

unfoldable pub check_queen : ℕ → ℕ → Table → ℕ → Bool
unfolding check_rounds
check_queen x y table n = check_rounds n 0 x y table n

-- What `solveNQueen` changes: its three references and the global `count`.
pub record Search : Type 0 where
  pub table : Table
  pub row_queen : List Bool
  pub col_queen : List Bool
  pub count : ℕ

-- `count++`, which starts again at 5000000.
unfoldable pub tick : Search → Search
tick s = record s { count = if s.count + 1 == 5_000_000 then 0 else s.count + 1 }

unfoldable pub put : ℕ → ℕ → Bool → ℕ → Search → Search
unfolding set_cell
put row col flag c s = record s {
  row_queen = set s.row_queen row flag;
  col_queen = set s.col_queen col flag;
  table = set_cell s.table row col c;
}

abbrev pub place : ℕ → ℕ → Search → Search
place row col s = put row col true b'Q' s

abbrev pub take_back : ℕ → ℕ → Search → Search
take_back row col s = put row col false b'.' s

-- The loop of `solveNQueen` over the columns from `col` on; `below` is the call for the next row.
unfoldable pub try_columns : ℕ → ℕ → ℕ → (Search → Bool × Search) → ℕ → Search → Bool × Search
try_columns n zero col below row s = (false, s)
try_columns n (suc left) col below row s = elim (get_or s.col_queen col false) [
  | true ↦ try_columns n left (col + 1) below row s
  | false ↦ elim (check_queen row col s.table n) [
    | false ↦ try_columns n left (col + 1) below row (tick s)
    | true ↦
        let (solved, s') = below (place row col (tick s)) in
        elim solved [
          | true ↦ (true, s')
          | false ↦ try_columns n left (col + 1) below row (take_back row col s')
        ]
  ]
]

-- `solveNQueen` at `row`, with `left` rows to go.
unfoldable pub solve : ℕ → ℕ → ℕ → Search → Bool × Search
unfolding try_columns
solve n zero row s = (true, s)
solve n (suc left) row s = elim (get_or s.row_queen row false) [
  | true ↦ solve n left (row + 1) s
  | false ↦ try_columns n n 0 (solve n left (row + 1)) row s
]

-- The loops of `main` over the board's places.
unfoldable pub mark_columns : Bytes → ℕ → ℕ → Search → Search
mark_columns [] row col s = s
mark_columns (c ∷ cs) row col s = mark_columns cs row (col + 1) (
    if c == b'Q'
    then record s { row_queen = set s.row_queen row true; col_queen = set s.col_queen col true }
    else s)

unfoldable pub mark_rows : Table → ℕ → Search → Search
unfolding mark_columns
mark_rows [] row s = s
mark_rows (line ∷ lines) row s = mark_rows lines (row + 1) (mark_columns line row 0 s)

-- `row_Queen` and `col_Queen` as `main` fills them.
unfoldable pub start : ℕ → Table → Search
unfolding mark_rows
start n table = mark_rows table 0 (record {
  table = table;
  row_queen = replicate n false;
  col_queen = replicate n false;
  count = 0;
})

-- The loop of `main` that splits the answer into lines and drops the blanks; what follows the last
-- newline is dropped too.
unfoldable pub split_lines : Bytes → Bytes → Table
split_lines tmp [] = []
split_lines tmp (c ∷ cs) = elim (c == 10) [
  | true ↦ tmp ∷ split_lines [] cs
  | false ↦ split_lines (if c == 32 then tmp else tmp ++ c ∷ []) cs
]

-- The places for which `main` sends a move, in a row from column `col` on, and in the rows from `row` on.
unfoldable pub moves_in_row : Bytes → ℕ → ℕ → List (ℕ × ℕ)
moves_in_row [] row col = []
moves_in_row (c ∷ cs) row col =
    let rest = moves_in_row cs row (col + 1) in if c == b'Q' then (row, col) ∷ rest else rest

unfoldable pub moves_from : Table → ℕ → List (ℕ × ℕ)
unfolding moves_in_row
moves_from [] row = []
moves_from (line ∷ lines) row = moves_in_row line row 0 ++ moves_from lines (row + 1)

unfoldable pub moves : Table → List (ℕ × ℕ)
unfolding moves_from
moves table = moves_from table 0
