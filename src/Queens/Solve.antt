-- ===== src/Queens/Solve.antt =====
-- What `solveNQueen` of lab7/src/solver.cpp answers and leaves, from its first call.
use inp.Common.{
  ℕ, zero, suc, ◌+◌, ◌≤◌, ◌<◌, ◌≡◌, refl, true, false, arith, ◌==◌, Bool-cases, subst, ◌⊎◌, inl,
  inr, ◌↔◌,
}
use inp.Queens.{Table, is_queen, Search, solve}
use inp.Queens.State.{Valid, Same}
use inp.Queens.Sound.{IsSolution, Completes, Solved}
use inp.Queens.Complete.{solve-Outcome}

-- The first column of a row with a queen.
unfoldable pub find_queen : ℕ → ℕ → Table → ℕ → ℕ
find_queen zero c t r = c
find_queen (suc left) c t r = elim (is_queen t r c) [
  | true ↦ c
  | false ↦ find_queen left (c + 1) t r
]

find_queen_lem :
    (left c d : ℕ) (t : Table) (r : ℕ)
    → c ≤ d
    → d < c + left
    → is_queen t r d ≡ true
    → (find_queen left c t r < c + left) × (is_queen t r (find_queen left c t r) ≡ true)
unfolding find_queen
find_queen_lem zero c d t r p q h = absurd (omega arith)
find_queen_lem (suc left) c d t r p q h = elim (Bool-cases (is_queen t r c)) [
  | inl e ↦ rw (e, find_queen) (omega arith, e)
  | inr e ↦ elim (Bool-cases (c == d)) [
    | inl same ↦ let k : c ≡ d = ground arith in let l = rw k at e in absurd (ground arith)
    | inr other ↦
        let (a, b) = find_queen_lem left (c + 1) d t r (ground arith) (omega arith) h in
        rw (e, find_queen) (omega arith, b)
  ]
]

-- The columns of the queens of a board.
abbrev pub columns : ℕ → Table → ℕ → ℕ
columns n t r = find_queen n 0 t r

-- The queens of a board are those of a placement, and there is no other.
abbrev pub Holds : ℕ → (ℕ → ℕ) → Table → Type 0
Holds n f t = (r c : ℕ) → r < n → c < n → (is_queen t r c ≡ true) ↔ (f r ≡ c)

Solved-columns :
    (n : ℕ) (s s' : Search)
    → Solved n s s'
    → IsSolution n (columns n s'.table)
      × Completes n (columns n s'.table) s.table
      × Holds n (columns n s'.table) s'.table
Solved-columns n s s' o =
    let at : (r : ℕ)
        → r < n
        → (columns n s'.table r < n) × (is_queen s'.table r (columns n s'.table r) ≡ true) =
      λ r h.
        let (c, hc, q) = o.valid.row_has r h (o.full r h) in
        let (a, b) = find_queen_lem n 0 c s'.table r (omega arith) (omega arith) q in
        (omega arith, b) in
    (
      record {
        within = λ r h. (at r h).0;
        apart = λ r q hr hq.
            o.valid.peace r (columns n s'.table r) q (columns n s'.table q) (hr, (at r hr).0)
              (hq, (at q hq).0) (at r hr).1 (at q hq).1;
      },
      λ r c hr hc h.
          let (one, _, _, _) =
            o.valid.peace r (columns n s'.table r) r c (hr, (at r hr).0) (hr, hc) (at r hr).1
              (o.keeps r c h) in
          one refl,
      λ r c hr hc. (
        λ h.
            let (one, _, _, _) =
              o.valid.peace r (columns n s'.table r) r c (hr, (at r hr).0) (hr, hc) (at r hr).1 h in
            one refl,
        λ same. subst (λ d. is_queen s'.table r d ≡ true) same (at r hr).1,
      ),
    )

-- From a board of any size whose flags say where its queens stand and whose queens do not attack
-- each other, `solveNQueen` says yes exactly when some solution has all the queens of the board.
pub solve_iff :
    (n : ℕ) (s : Search)
    → Valid n s
    → ((solve n n 0 s).0 ≡ true) ↔ ((f : ℕ → ℕ) × IsSolution n f × Completes n f s.table)
solve_iff n s v = elim (solve-Outcome n n 0 s (omega arith) v (λ r h. absurd (omega arith))) [
  | inl (e, o) ↦ (λ _. let (a, b, _) = Solved-columns n s _ o in (columns n _, a, b), λ _. e)
  | inr (e, m, dead) ↦ (λ k. absurd (ground arith), λ (f, sol, a). absurd (dead f sol a tt))
]

-- From a board of any size whose flags say where its queens stand and whose queens do not attack
-- each other, when `solveNQueen` says yes the queens of the board it leaves are those of a solution, one
-- in each row and no other, which has all the queens of the board it was given, and when it says no every queen and every flag is as it
-- was.
pub solve-board :
    (n : ℕ) (s : Search)
    → Valid n s
    → (((solve n n 0 s).0 ≡ true)
        × IsSolution n (columns n (solve n n 0 s).1.table)
        × Completes n (columns n (solve n n 0 s).1.table) s.table
        × Holds n (columns n (solve n n 0 s).1.table) (solve n n 0 s).1.table)
      ⊎ (((solve n n 0 s).0 ≡ false) × Same n s (solve n n 0 s).1)
solve-board n s v = elim (solve-Outcome n n 0 s (omega arith) v (λ r h. absurd (omega arith))) [
  | inl (e, o) ↦ let (a, b, c) = Solved-columns n s _ o in inl (e, a, b, c)
  | inr (e, m, dead) ↦ inr (e, m)
]
