-- ===== src/Queens/Begin.antt =====
-- The search of lab7/src/solver.cpp from the board that `main` gets.
use inp.Common.{
  ℕ, zero, suc, ◌+◌, ◌≤◌, ◌<◌, ◌≡◌, refl, ap, sym, ◌∙◌, subst, true, false, List, [], ◌∷◌, arith,
  ◌==◌, ltb, get_or, length, length-replicate, replicate, Bool-cases, ◌↔◌, inl, inr,
}
use inp.Common.Bytes.{Bytes}
use inp.Queens.{Table, is_queen, Search, start, solve}
use inp.Queens.Board.{IsSquare}
use inp.Queens.State.{flag, Peace, Valid}
use inp.Queens.Sound.{IsSolution, Completes}
use inp.Queens.Solve.{solve_iff}
use inp.Queens.Start.{Kept, mark_rows-Kept}
use inp.Queens.Marks.{Marks, mark_rows-Marks}

past {ℓ} : {A : Type ℓ} (xs : List A) (i : ℕ) (d : A) → length xs ≤ i → get_or xs i d ≡ d
past [] i d h = refl
past (x ∷ xs) zero d h = absurd (omega arith)
past (x ∷ xs) (suc i) d h = past xs i d (omega arith)

no_flag : (n i : ℕ) → get_or (replicate n false) i false ≡ false
no_flag zero i = refl
no_flag (suc n) zero = refl
no_flag (suc n) (suc i) = no_flag n i

-- No two queens of the board attack each other.
abbrev pub IsPeaceful : ℕ → Table → Type 0
IsPeaceful n t =
    (r c q d : ℕ)
    → (r < n) × (c < n)
    → (q < n) × (d < n)
    → is_queen t r c ≡ true
    → is_queen t q d ≡ true
    → Peace r c q d

module _ (n : ℕ) (t : Table) (sq : IsSquare n t) where
  empty_line : Bytes
  empty_line = []

  is_queen-within : (r c : ℕ) → is_queen t r c ≡ true → (r < n) × (c < n)
  unfolding is_queen empty_line
  is_queen-within r c h = elim (Bool-cases (ltb r n)) [
    | inr e ↦
        let none_there =
          ap (λ line. get_or line c 0 == b'Q') (past t r empty_line (ground (arith, sq.height))) in
        absurd (ground arith)
    | inl e ↦ elim (Bool-cases (ltb c n)) [
      | inl k ↦ (ground arith, ground arith)
      | inr k ↦
          let none_there =
            ap (λ x. x == b'Q')
              (past (get_or t r []) c 0 (ground (arith, sq.width r (ground arith)))) in
          absurd (ground arith)
    ]
  ]

  abbrev clear : Search
  clear = record {
    table = t;
    row_queen = replicate n false;
    col_queen = replicate n false;
    count = 0;
  }

  start-Kept : Kept clear (start n t)
  unfolding start
  start-Kept = mark_rows-Kept t 0 clear

  start-Marks : Marks t 0 clear (start n t)
  unfolding start
  start-Marks =
      mark_rows-Marks t 0 clear (omega (arith, sq.height, length-replicate n false)) (λ i h.
        omega (arith, sq.height, sq.width i (omega (arith, sq.height)), length-replicate n false))

  start-Valid : IsPeaceful n t → Valid n (start n t)
  start-Valid peace =
      let k = start-Kept in
      let m = start-Marks in
      let same = (λ (r c : ℕ). ap (λ b. is_queen b r c) k.table) in
      record {
        square = rw k.table sq;
        rows = k.rows ∙ length-replicate n false;
        cols = k.cols ∙ length-replicate n false;
        flags = λ r c hr hc h.
            let (a, b) = m.marked r c (sym (same r c) ∙ h) in
            let e : r ≡ 0 + r = omega arith in (ap (flag (start n t).row_queen) e ∙ a, b);
        row_has = λ r hr h. elim (m.row_why r h) [
          | inl old ↦ absurd (ground (arith, no_flag n r))
          | inr (i, c, e, q) ↦
              let e' : i ≡ r = omega arith in
              let q' : is_queen t r c ≡ true = rw (← e') q in
              (c, (is_queen-within r c q').1, same r c ∙ q')
        ];
        col_has = λ c hc h. elim (m.col_why c h) [
          | inl old ↦ absurd (ground (arith, no_flag n c))
          | inr (r, k, e, q) ↦
              let q' : is_queen t r c ≡ true = rw (← e) q in
              (r, (is_queen-within r c q').0, same r c ∙ q')
        ];
        peace = λ r c q d a b x y. peace r c q d a b (sym (same r c) ∙ x) (sym (same q d) ∙ y);
      }

  -- From the board that `main` gets, of any size, square and with no queens that attack each other,
  -- the search says yes exactly when some solution has all the queens of the board.
  pub solve-start_iff :
      IsPeaceful n t
      → ((solve n n 0 (start n t)).0 ≡ true) ↔ ((f : ℕ → ℕ) × IsSolution n f × Completes n f t)
  solve-start_iff peace =
      subst
        (λ b.
          ((solve n n 0 (start n t)).0 ≡ true) ↔ ((f : ℕ → ℕ) × IsSolution n f × Completes n f b))
        start-Kept.table (solve_iff n (start n t) (start-Valid peace))
