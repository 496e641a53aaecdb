-- ===== src/Queens/Tests.antt =====
-- Runs of lab7/src/solver.cpp on boards of four rows.
use inp.Common.{
  ℕ, zero, suc, ◌<◌, ◌≡◌, refl, true, false, [], ◌∷◌, arith, ◌==◌, if◌then◌else◌, replicate, get_or,
  ◌↔◌, ◌⊎◌,
}
use inp.Common.Bytes.{text}
use inp.Queens.{
  Table, is_queen, set_cell, hits, check_rounds, check_queen, Search, tick, put, place, try_columns,
  solve, mark_columns, mark_rows, start, split_lines, moves,
}
use inp.Queens.Check.{IsClear, check_queen_iff}
use inp.Queens.State.{Valid, Same, place-Valid}
use inp.Queens.Sound.{IsSolution, Completes}
use inp.Queens.Solve.{columns, Holds, solve-board}
use inp.Queens.Moves.{times, moves_lem}
use inp.Queens.Begin.{solve-start_iff}

open_all : ℕ
unfolding text is_queen set_cell hits check_rounds check_queen tick put try_columns solve
    mark_columns mark_rows start split_lines
open_all = 0

abbrev empty_table : Table
empty_table = text "...." ∷ text "...." ∷ text "...." ∷ text "...." ∷ []

abbrev empty : Search
empty = record {
  table = empty_table;
  row_queen = replicate 4 false;
  col_queen = replicate 4 false;
  count = 4_999_998;
}

start_runs : (start 4 empty_table).row_queen ≡ replicate 4 false
unfolding open_all
start_runs = refl

solve_runs :
    (solve 4 4 0 (start 4 (split_lines [] (text ". . . .\n. . . .\nQ . . .\n. . . .\n")))).1.table
    ≡ text ".Q.." ∷ text "...Q" ∷ text "Q..." ∷ text "..Q." ∷ []
unfolding open_all
solve_runs = refl

solve_stuck_runs :
    (solve 4 4 0 (start 4 (text "Q..." ∷ text "...." ∷ text "...." ∷ text "...." ∷ []))).0 ≡ false
unfolding open_all
solve_stuck_runs = refl

row_lem : (r : ℕ) → r < 4 → get_or empty_table r [] ≡ text "...."
unfolding open_all
row_lem zero h = refl
row_lem (suc zero) h = refl
row_lem (suc (suc zero)) h = refl
row_lem (suc (suc (suc zero))) h = refl
row_lem (suc (suc (suc (suc r)))) h = absurd (omega arith)

blank : (c : ℕ) → get_or (text "....") c 0 == b'Q' ≡ false
unfolding open_all
blank zero = refl
blank (suc zero) = refl
blank (suc (suc zero)) = refl
blank (suc (suc (suc zero))) = refl
blank (suc (suc (suc (suc c)))) = refl

no_queen : (r c : ℕ) → is_queen empty_table r c ≡ false
unfolding open_all
no_queen zero c = blank c
no_queen (suc zero) c = blank c
no_queen (suc (suc zero)) c = blank c
no_queen (suc (suc (suc zero))) c = blank c
no_queen (suc (suc (suc (suc r)))) c = refl

no_flag : (r : ℕ) → get_or (replicate 4 false) r false ≡ false
no_flag zero = refl
no_flag (suc zero) = refl
no_flag (suc (suc zero)) = refl
no_flag (suc (suc (suc zero))) = refl
no_flag (suc (suc (suc (suc r)))) = refl

empty-Valid : Valid 4 empty
unfolding open_all
empty-Valid = record {
  square = record { height = refl; width = λ r h. rw (row_lem r h) refl };
  rows = refl;
  cols = refl;
  flags = λ r c hr hc q. absurd (ground (arith, no_queen r c));
  row_has = λ r h q. absurd (ground (arith, no_flag r));
  col_has = λ r h q. absurd (ground (arith, no_flag r));
  peace = λ r c q d a b h k. absurd (ground (arith, no_queen r c));
}

one_placed : Search
one_placed = place 0 1 empty

one_placed-Valid : Valid 4 one_placed
unfolding open_all one_placed
one_placed-Valid = place-Valid 4 empty empty-Valid 0 1 (omega arith) (omega arith) refl refl refl

check_queen_iff_example :
    (check_queen 1 2 one_placed.table 4 ≡ true) ↔ IsClear 1 2 one_placed.table 4
check_queen_iff_example = check_queen_iff 1 2 one_placed.table 4 (omega arith) (omega arith)

solve-start_iff_example :
    ((solve 4 4 0 (start 4 one_placed.table)).0 ≡ true)
    ↔ ((f : ℕ → ℕ) × IsSolution 4 f × Completes 4 f one_placed.table)
solve-start_iff_example =
    solve-start_iff 4 one_placed.table one_placed-Valid.square one_placed-Valid.peace

solve-board_example :
    (((solve 4 4 0 one_placed).0 ≡ true)
      × IsSolution 4 (columns 4 (solve 4 4 0 one_placed).1.table)
      × Completes 4 (columns 4 (solve 4 4 0 one_placed).1.table) one_placed.table
      × Holds 4 (columns 4 (solve 4 4 0 one_placed).1.table) (solve 4 4 0 one_placed).1.table)
    ⊎ (((solve 4 4 0 one_placed).0 ≡ false) × Same 4 one_placed (solve 4 4 0 one_placed).1)
solve-board_example = solve-board 4 one_placed one_placed-Valid

moves_lem_example :
    times 0 1 (moves one_placed.table) ≡ (if is_queen one_placed.table 0 1 then 1 else 0)
moves_lem_example = moves_lem one_placed.table 0 1
