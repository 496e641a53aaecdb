-- ===== src/Queens/Board.antt =====
-- Boards of lab7/src/solver.cpp: writing a place and reading another.
use inp.Common.{
  ℕ, ◌<◌, ◌≡◌, ◌∙◌, ◌&&◌, [], arith, ◌==◌, if◌then◌else◌, get_or, set, get_or-set, length,
  length-set, Bool-cases, inl, inr,
}
use inp.Queens.{Table, is_queen, set_cell}

-- A board of `n` rows and `n` columns.
pub record IsSquare (n : ℕ) (t : Table) : Type 0 where
  pub height : length t ≡ n
  pub width : (r : ℕ) → r < n → length (get_or t r []) ≡ n

module _ (n : ℕ) (t : Table) (sq : IsSquare n t) (r c v : ℕ) (hr : r < n) (hc : c < n) where
  pub set_cell-IsSquare : IsSquare n (set_cell t r c v)
  unfolding set_cell
  set_cell-IsSquare = record {
    height = length-set t r (set (get_or t r []) c v) ∙ sq.height;
    width = λ q hq.
        let inside : r < length t = omega (arith, sq.height) in
        elim (Bool-cases (r == q)) [
          | inl e ↦
              rw (get_or-set t r q (set (get_or t r []) c v) [] inside, e)
                (length-set (get_or t r []) c v ∙ sq.width r hr)
          | inr e ↦ rw (get_or-set t r q (set (get_or t r []) c v) [] inside, e) (sq.width q hq)
        ];
  }

  pub is_queen-set_cell :
      (q d : ℕ)
      → is_queen (set_cell t r c v) q d
        ≡ (if (r == q && c == d) then (v == b'Q') else is_queen t q d)
  unfolding set_cell is_queen
  is_queen-set_cell q d =
      let inside : r < length t = omega (arith, sq.height) in
      let within : c < length (get_or t r []) = omega (arith, sq.width r hr) in
      elim (Bool-cases (r == q)) [
        | inr e ↦ rw (get_or-set t r q (set (get_or t r []) c v) [] inside, e)
        | inl e ↦
            rw
              (
                get_or-set t r q (set (get_or t r []) c v) [] inside,
                e,
                get_or-set (get_or t r []) c d v 0 within,
              )
              (let same : r ≡ q = ground arith in
                rw (← same) (elim (Bool-cases (c == d)) [ inl k ↦ rw k | inr k ↦ rw k ]))
      ]
