-- ===== src/Queens/Sound.antt =====
-- `solveNQueen` of lab7/src/solver.cpp finds a way to complete the board when there is one.
use inp.Common.{
  ℕ, ◌+◌, ◌<◌, ◌≡◌, ◌∙◌, sym, Bool, true, false, ◌&&◌, arith, ◌==◌, if◌then◌else◌, Bool-cases, ◌⊎◌,
  inl, inr,
}
use inp.Queens.{Table, is_queen, check_queen, Search, place, take_back}
use inp.Queens.Check.{check_queen_iff}
use inp.Queens.State.{
  flag, Peace, Valid, Same, put-queens, put-row_flags, put-col_flags, put-IsSquare, put-rows,
  put-cols,
}

-- A column for each row, so that no two queens attack each other.
pub record IsSolution (n : ℕ) (f : ℕ → ℕ) : Type 0 where
  pub within : (r : ℕ) → r < n → f r < n
  pub apart : (r q : ℕ) → r < n → q < n → Peace r (f r) q (f q)

-- The solution has a queen where the board has one.
abbrev pub Completes : ℕ → (ℕ → ℕ) → Table → Type 0
Completes n f t = (r c : ℕ) → r < n → c < n → is_queen t r c ≡ true → f r ≡ c

-- The board after a search that found a solution.
pub record Solved (n : ℕ) (s s' : Search) : Type 0 where
  pub valid : Valid n s'
  pub keeps : (r c : ℕ) → is_queen s.table r c ≡ true → is_queen s'.table r c ≡ true
  pub full : (r : ℕ) → r < n → flag s'.row_queen r ≡ true

-- A search finds a solution, or leaves queens and flags as they were and no solution that satisfies
-- `From` completes the board.
abbrev pub Outcome : ℕ → ((ℕ → ℕ) → Type 0) → Search → Bool × Search → Type 0
Outcome n From s r =
    ((r.0 ≡ true) × Solved n s r.1)
    ⊎ ((r.0 ≡ false)
        × Same n s r.1
        × ((f : ℕ → ℕ) → IsSolution n f → Completes n f s.table → From f → ⊥))

pub Same-Solved : (n : ℕ) (s t u : Search) → Same n s t → Solved n t u → Solved n s u
Same-Solved n s t u m o = record {
  valid = o.valid;
  keeps = λ r c h. o.keeps r c (m.queens r c ∙ h);
  full = o.full;
}

pub Same-Completes :
    (n : ℕ) (f : ℕ → ℕ) (s t : Search) → Same n s t → Completes n f s.table → Completes n f t.table
Same-Completes n f s t m a r c hr hc h = a r c hr hc (sym (m.queens r c) ∙ h)

-- The rows before `row` have their queens.
abbrev pub Done : ℕ → Search → Type 0
Done row s = (r : ℕ) → r < row → flag s.row_queen r ≡ true

module _ (n : ℕ) (s : Search) (v : Valid n s) (row col : ℕ) (hr : row < n) (hc : col < n)
    (free_row : flag s.row_queen row ≡ false) (free_col : flag s.col_queen col ≡ false) where
  pub placed-queens :
      (r c : ℕ)
      → is_queen (place row col s).table r c
        ≡ (if (row == r && col == c) then true else is_queen s.table r c)
  placed-queens = put-queens n s v.square v.rows v.cols row col hr hc true b'Q'

  pub placed-Done : Done row s → Done (row + 1) (place row col s)
  placed-Done d r h =
      ground (arith, put-row_flags n s v.square v.rows v.cols row col hr hc true b'Q' r, d r)

  no_queen : (r : ℕ) → r < n → is_queen s.table r col ≡ false
  no_queen r p = elim (Bool-cases (is_queen s.table r col)) [
    | inl e ↦ let (a, b) = v.flags r col p hc e in absurd (ground arith)
    | inr e ↦ e
  ]

  -- Taking the queen back undoes `place`.
  pub take_back-Same : (s' : Search) → Same n (place row col s) s' → Same n s (take_back row col s')
  take_back-Same s' m = record {
    square = put-IsSquare n s' m.square m.rows m.cols row col hr hc false b'.';
    rows = put-rows n s' m.square m.rows m.cols row col hr hc false b'.';
    cols = put-cols n s' m.square m.rows m.cols row col hr hc false b'.';
    queens = λ r c. ground (
      arith,
      put-queens n s' m.square m.rows m.cols row col hr hc false b'.' r c,
      m.queens r c,
      placed-queens r c,
      no_queen row hr,
    );
    row_flags = λ r. ground (
      arith,
      put-row_flags n s' m.square m.rows m.cols row col hr hc false b'.' r,
      m.row_flags r,
      put-row_flags n s v.square v.rows v.cols row col hr hc true b'Q' r,
    );
    col_flags = λ c. ground (
      arith,
      put-col_flags n s' m.square m.rows m.cols row col hr hc false b'.' c,
      m.col_flags c,
      put-col_flags n s v.square v.rows v.cols row col hr hc true b'Q' c,
    );
  }

  -- A solution with its queen of this row here completes the board with the queen placed.
  pub placed-Completes :
      (f : ℕ → ℕ) → Completes n f s.table → f row ≡ col → Completes n f (place row col s).table
  placed-Completes f a e r c p q h = elim (Bool-cases (row == r && col == c)) [
    | inl both ↦
        let k₁ : row ≡ r = ground arith in let k₂ : col ≡ c = ground arith in rw (← k₁, ← k₂) e
    | inr other ↦ a r c p q (ground (arith, placed-queens r c))
  ]

-- A solution that completes the board has no queen where the column is taken in another row, nor
-- where `checkqueen` says no.
module _ (n : ℕ) (s : Search) (v : Valid n s) (row : ℕ) (hr : row < n)
    (free_row : flag s.row_queen row ≡ false) (f : ℕ → ℕ) (sol : IsSolution n f)
    (a : Completes n f s.table) where
  pub not_taken : flag s.col_queen (f row) ≡ false
  not_taken = elim (Bool-cases (flag s.col_queen (f row))) [
    | inr e ↦ e
    | inl e ↦
        let (q, hq, k) = v.col_has (f row) (sol.within row hr) e in
        let same = a q (f row) hq (sol.within row hr) k in
        let (_, p, _, _) = sol.apart q row hq hr in
        let here : q ≡ row = p same in
        let (fr, _) = v.flags q (f row) hq (sol.within row hr) k in absurd (ground arith)
  ]

  pub allowed : check_queen row (f row) s.table n ≡ true
  allowed = (check_queen_iff row (f row) s.table n hr (sol.within row hr)).1 λ r c pr pc k.
      let at = a r c pr pc k in
      let (_, _, d₁, d₂) = sol.apart r row pr hr in
      let (fr, _) = v.flags r c pr pc k in
      (
        λ e. let here : r ≡ row = d₁ (rw at e) in absurd (ground arith),
        λ e. let here : r ≡ row = d₂ (rw at e) in absurd (ground arith),
      )
