-- ===== src/Transfer/Window.antt =====
-- The window of lab6/src/server.cpp: it starts at the first file that is not saved.
use inp.Common.{
  false-true, ℕ, zero, suc, ◌+◌, ◌-◌, ◌≤◌, ◌<◌, ◌≡◌, ◌≢◌, refl, ap, sym, ◌∙◌, Bool, true, false,
  List, some, arith, ◌==◌, if◌then◌else◌, get_or, Bool-cases, inl, inr, ltb, leb,
}
use inp.Transfer.{Store, find_unsaved, set_window}

lt→leb : (a b : ℕ) → a ≤ b → leb a b ≡ true
lt→leb a b h = ground arith

unsaved_next :
    (left i : ℕ) (saved : List Bool) (k : ℕ)
    → get_or saved i false ≡ true
    → find_unsaved left (i + 1) saved ≡ some k
    → find_unsaved (suc left) i saved ≡ some k
unfolding find_unsaved
unsaved_next left i saved k e h = ground arith

find_unsaved_lem :
    (left i : ℕ) (saved : List Bool)
    → i + left ≡ 1001
    → get_or saved 1000 false ≡ false
    → i ≤ 1000
    → (k : ℕ) × (find_unsaved left i saved ≡ some k)
      × (k ≤ 1000)
      × (get_or saved k false ≡ false)
      × ((j : ℕ) → i ≤ j → j < k → get_or saved j false ≡ true)
unfolding find_unsaved
find_unsaved_lem zero i saved e last p = absurd (omega arith)
find_unsaved_lem (suc left) i saved e last p = elim (Bool-cases (get_or saved i false)) [
  | inr no_file ↦ (i, rw no_file refl, p, no_file, λ j a b. absurd (omega arith))
  | inl yes_file ↦
      let ne : i ≢ 1000 =
        λ k. absurd (false-true (sym last ∙ (ap (λ x. get_or saved x false) (sym k) ∙ yes_file))) in
      let (k, found, hk, free, all) =
        find_unsaved_lem left (i + 1) saved (omega arith) last (omega arith) in
      (
        k,
        unsaved_next left i saved k yes_file found,
        hk,
        free,
        λ j a b. elim (Bool-cases (i == j)) [
          | inl same ↦ let q : i ≡ j = ground arith in rw (← q) yes_file
          | inr other ↦ all j (ground arith) b
        ],
      )
]

-- The files in front of the window are saved.
pub record Window (s : Store) : Type 0 where
  pub bound : s.start_file ≤ 1000
  pub behind : (f : ℕ) → f < s.start_file → get_or s.file_saved f false ≡ true

set_window_at :
    (s : Store) (k : ℕ)
    → find_unsaved (1001 - s.start_file) s.start_file s.file_saved ≡ some k
    → set_window s ≡ record s { start_file = k; end_file = 1000 }
unfolding set_window
set_window_at s k e =
    rw (e, set_window)
      (ap (λ b. record s { start_file = k; end_file = if b then 1000 else k + 1000 })
        (lt→leb 1000 (k + 1000) (omega arith)))

pub set_window_lem :
    (s : Store)
    → get_or s.file_saved 1000 false ≡ false
    → Window s
    → (k : ℕ) × (set_window s ≡ record s { start_file = k; end_file = 1000 })
      × (k ≤ 1000)
      × (get_or s.file_saved k false ≡ false)
      × ((f : ℕ) → f < k → get_or s.file_saved f false ≡ true)
unfolding set_window
set_window_lem s last w =
    let (k, found, hk, free, all) =
      find_unsaved_lem (1001 - s.start_file) s.start_file s.file_saved (omega (arith, w.bound)) last
        w.bound in
    (
      k,
      set_window_at s k found,
      hk,
      free,
      λ f h. elim (Bool-cases (ltb f s.start_file)) [
        | inl lt ↦ w.behind f (ground arith)
        | inr ge ↦ all f (ground arith) h
      ],
    )
