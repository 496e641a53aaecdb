-- ===== src/Queens/Moves.antt =====
-- The moves that `main` of lab7/src/solver.cpp sends.
use inp.Common.{
  ℕ, zero, suc, ◌+◌, ◌<◌, ◌≡◌, ◌≢◌, refl, ap, sym, ◌∙◌, ◌&&◌, List, [], ◌∷◌, ◌++◌, arith, ◌==◌,
  if◌then◌else◌, get_or,
}
use inp.Common.Bytes.{Bytes}
use inp.Queens.{Table, is_queen, moves_in_row, moves_from, moves}

-- How often a place stands in a list of moves.
unfoldable pub times : ℕ → ℕ → List (ℕ × ℕ) → ℕ
times r c [] = 0
times r c ((a, b) ∷ rest) = (if a == r && b == c then 1 else 0) + times r c rest

times-append : (r c : ℕ) (xs ys : List (ℕ × ℕ)) → times r c (xs ++ ys) ≡ times r c xs + times r c ys
unfolding times
times-append r c [] ys = omega arith
times-append r c (x ∷ xs) ys = omega (arith, times-append r c xs ys)

other_row : (line : Bytes) (row col r c : ℕ) → row ≢ r → times r c (moves_in_row line row col) ≡ 0
unfolding moves_in_row times
other_row [] row col r c h = refl
other_row (x ∷ line) row col r c h = ground (arith, other_row line row (col + 1) r c h)

earlier_column :
    (line : Bytes) (row col r c : ℕ) → c < col → times r c (moves_in_row line row col) ≡ 0
unfolding moves_in_row times
earlier_column [] row col r c h = refl
earlier_column (x ∷ line) row col r c h =
    ground (arith, earlier_column line row (col + 1) r c (omega arith))

same_row :
    (line : Bytes) (row col k : ℕ)
    → times row (col + k) (moves_in_row line row col) ≡ (if get_or line k 0 == b'Q' then 1 else 0)
unfolding moves_in_row times
same_row [] row col k = refl
same_row (x ∷ line) row col zero =
    ground (arith, earlier_column line row (col + 1) row (col + 0) (omega arith))
same_row (x ∷ line) row col (suc k) =
    let e : col + suc k ≡ col + 1 + k = omega arith in
    rw e (ground (arith, same_row line row (col + 1) k))

earlier_row : (lines : Table) (row r c : ℕ) → r < row → times r c (moves_from lines row) ≡ 0
unfolding moves_from times
earlier_row [] row r c h = refl
earlier_row (line ∷ lines) row r c h = omega (
  arith,
  times-append r c (moves_in_row line row 0) (moves_from lines (row + 1)),
  other_row line row 0 r c (omega arith),
  earlier_row lines (row + 1) r c (omega arith),
)

plus_none : (n : ℕ) → n + 0 ≡ n
plus_none n = omega arith

none_plus : (n : ℕ) → 0 + n ≡ n
none_plus n = omega arith

moves_from_lem :
    (lines : Table) (row i c : ℕ)
    → times (row + i) c (moves_from lines row) ≡ (if is_queen lines i c then 1 else 0)
unfolding moves_from times is_queen
moves_from_lem [] row i c = refl
moves_from_lem (line ∷ lines) row zero c =
    let e : row + 0 ≡ row = omega arith in
    let f : 0 + c ≡ c = omega arith in
    rw e (
      times-append row c (moves_in_row line row 0) (moves_from lines (row + 1))
      ∙ (ap (λ n. times row c (moves_in_row line row 0) + n)
            (earlier_row lines (row + 1) row c (omega arith))
          ∙ (plus_none (times row c (moves_in_row line row 0))
              ∙ (ap (λ k. times row k (moves_in_row line row 0)) (sym f) ∙ same_row line row 0 c))))
moves_from_lem (line ∷ lines) row (suc i) c =
    let e : row + suc i ≡ row + 1 + i = omega arith in
    rw e (
      times-append (row + 1 + i) c (moves_in_row line row 0) (moves_from lines (row + 1))
      ∙ (ap (λ n. n + times (row + 1 + i) c (moves_from lines (row + 1)))
            (other_row line row 0 (row + 1 + i) c (omega arith))
          ∙ (none_plus (times (row + 1 + i) c (moves_from lines (row + 1)))
              ∙ moves_from_lem lines (row + 1) i c)))

-- For every place of a board of any shape, the moves that are sent have the place once if a queen
-- stands on it, and not at all otherwise.
pub moves_lem : (t : Table) (r c : ℕ) → times r c (moves t) ≡ (if is_queen t r c then 1 else 0)
unfolding moves
moves_lem t r c =
    let e : 0 + r ≡ r = omega arith in
    ap (λ k. times k c (moves_from t 0)) (sym e) ∙ moves_from_lem t 0 r c
