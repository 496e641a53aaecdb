-- ===== src/Queens/Check.antt =====
-- `checkqueen` of lab7/src/solver.cpp looks along both diagonals, and at nothing else.
use inp.Common.{
  ℕ, zero, suc, ◌+◌, ◌-◌, ◌≤◌, ◌<◌, ◌≡◌, ◌≢◌, ◌↔◌, refl, true, false, arith, ◌==◌, ltb, Bool-cases,
  ◌⊎◌, inl, inr,
}
use inp.Queens.{Table, is_queen, hits, check_rounds, check_queen}

-- No queen of the board stands on a diagonal of the place (x, y).
abbrev pub IsClear : ℕ → ℕ → Table → ℕ → Type 0
IsClear x y t n =
    (r c : ℕ) → r < n → c < n → is_queen t r c ≡ true → (r + c ≢ x + y) × (r + y ≢ x + c)

check_rounds-hits :
    (left i x y : ℕ) (t : Table) (n : ℕ)
    → check_rounds left i x y t n ≡ true
    → (j : ℕ) → i ≤ j
    → j < i + left
    → hits x y t n j ≡ false
unfolding check_rounds
check_rounds-hits zero i x y t n h j p q = absurd (omega arith)
check_rounds-hits (suc left) i x y t n h j p q = elim (Bool-cases (hits x y t n i)) [
  | inl e ↦ absurd (ground arith)
  | inr e ↦ elim (Bool-cases (i == j)) [
    | inl same ↦ let k : i ≡ j = ground arith in rw (← k) e
    | inr other ↦
        check_rounds-hits left (i + 1) x y t n (rw (e, check_rounds) at h) j (ground arith)
          (omega arith)
  ]
]

hits-check_rounds :
    (left i x y : ℕ) (t : Table) (n : ℕ)
    → ((j : ℕ) → i ≤ j → j < i + left → hits x y t n j ≡ false)
    → check_rounds left i x y t n ≡ true
unfolding check_rounds
hits-check_rounds zero i x y t n h = refl
hits-check_rounds (suc left) i x y t n h =
    rw (h i (omega arith) (omega arith), check_rounds)
      (hits-check_rounds left (i + 1) x y t n (λ j p q. h j (omega arith) (omega arith)))

module _ (x y : ℕ) (t : Table) (n j : ℕ) (h : hits x y t n j ≡ false) where
  down_right : x + j < n → y + j < n → is_queen t (x + j) (y + j) ≡ false
  unfolding hits
  down_right p q = ground arith

  up_left : j ≤ x → j ≤ y → is_queen t (x - j) (y - j) ≡ false
  unfolding hits
  up_left p q = ground arith

  down_left : x + j < n → j ≤ y → is_queen t (x + j) (y - j) ≡ false
  unfolding hits
  down_left p q = ground arith

  up_right : j ≤ x → y + j < n → is_queen t (x - j) (y + j) ≡ false
  unfolding hits
  up_right p q = ground arith

-- A place that another name stands for.
moved : (t : Table) (a b r c : ℕ) → a ≡ r → b ≡ c → is_queen t a b ≡ false → is_queen t r c ≢ true
moved t a b r c p q h k = let e : is_queen t r c ≡ false = rw (← p, ← q) h in ground arith

not_diagonal :
    (x y : ℕ) (t : Table) (n : ℕ)
    → x < n
    → y < n
    → ((j : ℕ) → j < n → hits x y t n j ≡ false)
    → IsClear x y t n
not_diagonal x y t n hx hy h r c hr hc k = elim (Bool-cases (ltb r x)) [
  | inl above ↦
      let lt : r < x = ground arith in
      let none_at = h (x - r) (omega arith) in
      (
        λ e.
            moved t (x - (x - r)) (y + (x - r)) r c (omega arith) (omega arith)
              (up_right x y t n (x - r) none_at (omega arith) (omega arith)) k,
        λ e.
            moved t (x - (x - r)) (y - (x - r)) r c (omega arith) (omega arith)
              (up_left x y t n (x - r) none_at (omega arith) (omega arith)) k,
      )
  | inr below ↦
      let le : x ≤ r = ground arith in
      let none_at = h (r - x) (omega arith) in
      (
        λ e.
            moved t (x + (r - x)) (y - (r - x)) r c (omega arith) (omega arith)
              (down_left x y t n (r - x) none_at (omega arith) (omega arith)) k,
        λ e.
            moved t (x + (r - x)) (y + (r - x)) r c (omega arith) (omega arith)
              (down_right x y t n (r - x) none_at (omega arith) (omega arith)) k,
      )
]

module _ (x y : ℕ) (t : Table) (n : ℕ) (hx : x < n) (hy : y < n) (clear : IsClear x y t n) where
  off : (r c : ℕ) → r < n → c < n → (r + c ≡ x + y) ⊎ (r + y ≡ x + c) → is_queen t r c ≡ false
  off r c hr hc d = elim (Bool-cases (is_queen t r c)) [
    | inr e ↦ e
    | inl e ↦ let both = clear r c hr hc e in absurd (ground arith)
  ]

  clear-hits : (j : ℕ) → hits x y t n j ≡ false
  unfolding hits
  clear-hits j =
      ground
        (arith, off (x + j) (y + j), off (x - j) (y - j), off (x + j) (y - j), off (x - j) (y + j))

-- On a place of the board, `checkqueen` says yes exactly when no queen of the board stands on one of
-- its two diagonals.
pub check_queen_iff :
    (x y : ℕ) (t : Table) (n : ℕ) → x < n → y < n → (check_queen x y t n ≡ true) ↔ IsClear x y t n
unfolding check_queen
check_queen_iff x y t n hx hy = (
  λ h.
      not_diagonal x y t n hx hy
        λ j p. check_rounds-hits n 0 x y t n h j (omega arith) (omega arith),
  λ clear. hits-check_rounds n 0 x y t n λ j p q. clear-hits x y t n hx hy clear j,
)
