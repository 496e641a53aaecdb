-- ===== src/Transfer/Complete.antt =====
-- The server of lab6/src over a whole run: what it writes are the client's files, and it writes each
-- one that has come.
use inp.Common.{
  ℕ, ◌<◌, ◌≡◌, ◌≢◌, ap, sym, ◌∙◌, subst, true, false, arith, ◌==◌, get_or, Bool-cases, inl, inr,
}
use inp.Common.Bytes.{Bytes}
use inp.Transfer.{Packet, Store, receive}
use inp.Transfer.Server.{row_of, Sized, row_receive}
use inp.Transfer.Rows.{receive-Sized, receive-row_same, receive-row_other}
use inp.Transfer.Files.{RowOk, Has}
use inp.Transfer.Filling.{Honest, Better, row_receive-Better}
use inp.Transfer.Loop.{Received, timed_out, no_bytes, got}

-- What the server keeps is right for the client's files.
pub record Sound (files : ℕ → Bytes) (s : Store) : Type 0 where
  pub sized : Sized s
  pub rows : (f : ℕ) → f < 1000 → RowOk (files f) (row_of f s)
  pub last : get_or s.file_saved 1000 false ≡ false

-- An honest datagram: it names one of the thousand files.
abbrev pub IsHonest : (ℕ → Bytes) → Received → Type 0
IsHonest files timed_out = Unit
IsHonest files no_bytes = Unit
IsHonest files (got p) = (p.file_number < 1000) × Honest (files p.file_number) p

module _ (files : ℕ → Bytes) (p : Packet) (s : Store) (ok : Sound files s)
    (inside : p.file_number < 1000) (honest : Honest (files p.file_number) p) where
  same_row : row_of p.file_number (receive p s).1 ≡ (row_receive p (row_of p.file_number s)).1
  same_row = ap (λ r. r.1) (sym (receive-row_same p s ok.sized inside))

  pub better :
      Better (files p.file_number) p (row_of p.file_number s) (row_of p.file_number (receive p s).1)
  better = subst (Better (files p.file_number) p (row_of p.file_number s)) (sym same_row) (
      row_receive-Better (files p.file_number) p (row_of p.file_number s) honest
        (ok.rows p.file_number inside))

  receive-last : get_or (receive p s).1.file_saved 1000 false ≡ get_or s.file_saved 1000 false
  receive-last = ap (λ r. r.saved) (receive-row_other p s ok.sized inside 1000 (λ e. omega arith))

  pub receive-Sound : Sound files (receive p s).1
  receive-Sound = record {
    sized = receive-Sized p s ok.sized inside;
    rows = λ f hf. elim (Bool-cases (p.file_number == f)) [
      | inl e ↦
          let same : p.file_number ≡ f = ground arith in
          subst (λ k. RowOk (files k) (row_of k (receive p s).1)) same better.ok
      | inr e ↦
          let other : p.file_number ≢ f = λ k. ground arith in
          subst (RowOk (files f)) (sym (receive-row_other p s ok.sized inside f other))
            (ok.rows f hf)
    ];
    last = receive-last ∙ ok.last;
  }

  pub receive-Has : (f i : ℕ) → Has i (row_of f s) → Has i (row_of f (receive p s).1)
  receive-Has f i h = elim (Bool-cases (p.file_number == f)) [
    | inl e ↦
        let same : p.file_number ≡ f = ground arith in
        subst (λ k. Has i (row_of k (receive p s).1)) same
          (better.keeps i (subst (λ k. Has i (row_of k s)) (sym same) h))
    | inr e ↦
        let other : p.file_number ≢ f = λ k. ground arith in
        subst (Has i) (sym (receive-row_other p s ok.sized inside f other)) h
  ]

  pub receive-saved :
      (f : ℕ)
      → get_or s.file_saved f false ≡ true
      → get_or (receive p s).1.file_saved f false ≡ true
  receive-saved f h = elim (Bool-cases (p.file_number == f)) [
    | inl e ↦
        let same : p.file_number ≡ f = ground arith in
        subst (λ k. (row_of k (receive p s).1).saved ≡ true) same
          (better.stays (subst (λ k. (row_of k s).saved ≡ true) (sym same) h))
    | inr e ↦
        let other : p.file_number ≢ f = λ k. ground arith in
        ap (λ r. r.saved) (receive-row_other p s ok.sized inside f other) ∙ h
  ]
