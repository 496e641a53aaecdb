-- ===== src/Queens/Complete.antt =====
-- The search of `solveNQueen` in lab7/src/solver.cpp, from one row to the last.
use inp.Common.{
  ℕ, zero, suc, ◌+◌, ◌≤◌, ◌<◌, ◌≡◌, ◌∙◌, refl, Bool, true, false, arith, ◌==◌, Bool-cases, inl, inr,
}
use inp.Queens.{check_queen, Search, tick, place, take_back, try_columns, solve}
use inp.Queens.State.{flag, Valid, Same, Same-refl, Same-Valid, Same-trans, Same-tick, place-Valid}
use inp.Queens.Sound.{
  IsSolution, Completes, Outcome, Same-Solved, Same-Completes, Done, placed-queens, placed-Done,
  take_back-Same, placed-Completes, not_taken, allowed,
}

-- A search from a state with the same queens.
from_same :
    (n : ℕ) (From : (ℕ → ℕ) → Type 0) (s t : Search) (r : Bool × Search)
    → Same n s t
    → Outcome n From t r
    → Outcome n From s r
from_same n From s t r m o = elim o [
  | inl (e, ok) ↦ inl (e, Same-Solved n s t r.1 m ok)
  | inr (e, m', dead) ↦
      inr (e, Same-trans n s t r.1 m m', λ f sol a. dead f sol (Same-Completes n f s t m a))
]

-- One more column that no solution uses.
skip_column :
    (n : ℕ) (row col : ℕ) (s : Search) (r : Bool × Search)
    → ((f : ℕ → ℕ) → IsSolution n f → Completes n f s.table → f row ≡ col → ⊥)
    → Outcome n (λ f. col + 1 ≤ f row) s r
    → Outcome n (λ f. col ≤ f row) s r
skip_column n row col s r none o = elim o [
  | inl won ↦ inl won
  | inr (e, m, dead) ↦ inr (
    e,
    m,
    λ f sol a le. elim (Bool-cases (f row == col)) [
      | inl k ↦ none f sol a (ground arith)
      | inr k ↦ dead f sol a (ground arith)
    ],
  )
]

-- What the loop does with what `solveNQueen` says of the board with a queen placed.
module _ (n : ℕ) (s : Search) (v : Valid n s) (row col : ℕ) (hr : row < n) (hc : col < n)
    (free_row : flag s.row_queen row ≡ false) (free_col : flag s.col_queen col ≡ false)
    (ok_here : check_queen row col s.table n ≡ true) where
  one_queen :
      (next : Search → Bool × Search) (r : Bool × Search)
      → Outcome n (λ f. Unit) (place row col s) r
      → ((s' : Search) → Same n s s' → Outcome n (λ f. col + 1 ≤ f row) s' (next s'))
      → Outcome n
          (λ f. col ≤ f row)
          s
          (elim r.0 [ true ↦ (true, r.1) | false ↦ next (take_back row col r.1) ])
  one_queen next r o rest = elim o [
    | inl (e, ok) ↦ rw e (
        inl (
          refl,
          record {
            valid = ok.valid;
            keeps = λ r c h.
                ok.keeps r c
                  (ground (arith, placed-queens n s v row col hr hc free_row free_col r c));
            full = ok.full;
          },
        ))
    | inr (e, m, dead) ↦ rw e (
        let back = take_back-Same n s v row col hr hc free_row free_col r.1 m in
        skip_column n row col s _
          (λ f sol a k.
            dead f sol (placed-Completes n s v row col hr hc free_row free_col f a k) tt)
          (from_same n (λ f. col + 1 ≤ f row) s (take_back row col r.1) _ back
            (rest (take_back row col r.1) back)))
  ]

module _ (n : ℕ) (row : ℕ) (hr : row < n) (below : Search → Bool × Search)
    (below_lem : (s : Search)
      → Valid n s
      → Done (row + 1) s
      → Outcome n (λ f. Unit) s (below s)) where
  try_columns-Outcome :
      (left col : ℕ) (s : Search)
      → left + col ≡ n
      → Valid n s
      → Done row s
      → flag s.row_queen row ≡ false
      → Outcome n (λ f. col ≤ f row) s (try_columns n left col below row s)
  unfolding try_columns tick
  try_columns-Outcome zero col s e v d free =
      inr (
        refl,
        Same-refl n s v,
        λ f sol a le. let inside = sol.within row hr in absurd (omega arith),
      )
  try_columns-Outcome (suc left) col s e v d free = elim (Bool-cases (flag s.col_queen col)) [
    | inl taken ↦
        rw (taken, try_columns)
          (skip_column n row col s _
            (λ f sol a k.
              let none = not_taken n s v row hr free f sol a in
              let here : flag s.col_queen col ≡ false = rw (← k) none in absurd (ground arith))
            (try_columns-Outcome left (col + 1) s (omega arith) v d free))
    | inr open_col ↦ elim (Bool-cases (check_queen row col s.table n)) [
      | inr bad ↦
          rw (open_col, bad, try_columns)
            (skip_column n row col s _
              (λ f sol a k.
                let yes = allowed n s v row hr free f sol a in
                let here : check_queen row col s.table n ≡ true = rw (← k) yes in
                absurd (ground arith))
              (from_same n (λ f. col + 1 ≤ f row) s (tick s) _ (Same-tick n s v)
                (try_columns-Outcome left (col + 1) (tick s) (omega arith)
                  (Same-Valid n s (tick s) (Same-tick n s v) v) d free)))
      | inl good ↦
          let t = Same-Valid n s (tick s) (Same-tick n s v) v in
          rw (open_col, good, try_columns)
            (from_same n (λ f. col ≤ f row) s (tick s) _ (Same-tick n s v)
              (one_queen n (tick s) t row col hr (omega arith) free open_col good
                (try_columns n left (col + 1) below row) (below (place row col (tick s)))
                (below_lem (place row col (tick s))
                  (place-Valid n (tick s) t row col hr (omega arith) free open_col good)
                  (placed-Done n (tick s) t row col hr (omega arith) free open_col d))
                λ s' m.
                  try_columns-Outcome left (col + 1) s' (omega arith) (Same-Valid n (tick s) s' m t)
                    (λ r h. m.row_flags r ∙ d r h) (m.row_flags row ∙ free)))
    ]
  ]

pub solve-Outcome :
    (n left row : ℕ) (s : Search)
    → row + left ≡ n
    → Valid n s
    → Done row s
    → Outcome n (λ f. Unit) s (solve n left row s)
unfolding solve
solve-Outcome n zero row s e v d =
    inl (refl, record { valid = v; keeps = λ r c h. h; full = λ r h. d r (omega arith) })
solve-Outcome n (suc left) row s e v d = elim (Bool-cases (flag s.row_queen row)) [
  | inl filled ↦
      rw (filled, solve)
        (solve-Outcome n left (row + 1) s (omega arith) v λ r h. elim (Bool-cases (r == row)) [
          | inl k ↦ let here : r ≡ row = ground arith in rw here filled
          | inr k ↦ d r (ground arith)
        ])
  | inr free ↦
      rw (free, solve)
        (elim (try_columns-Outcome n row (omega arith) (solve n left (row + 1))
          (λ t w dt. solve-Outcome n left (row + 1) t (omega arith) w dt) n 0 s (omega arith) v d
          free) [
            | inl won ↦ inl won
            | inr (k, m, dead) ↦ inr (k, m, λ f sol a u. dead f sol a (omega arith))
          ])
]
