-- ===== src/Transfer/Rows.antt =====
-- The server of lab6/src/server.cpp against its row by row description.
use inp.Common.{
  ℕ, ◌<◌, ◌≡◌, ◌≢◌, refl, ap, ◌∙◌, true, false, List, [], arith, ◌==◌, get_or, set, get_or-set,
  length, length-set, Bool-cases, inl, inr,
}
use inp.Common.Maps.{lookup-insert}
use inp.Transfer.{
  Packet, packet_crc, Store, stored_of, datas_of, expand, store_packet, save_flg, file_bytes, save,
  is_empty, receive,
}
use inp.Transfer.Server.{Row, row_of, Sized, row_expand, row_store, row_save, row_receive}

-- Reading a vector of the server behind a write.
module _ {ℓ} {A : Type ℓ} (xs : List A) (n i j : ℕ) (v d : A) (len : length xs ≡ n)
    (h : i < n) where
  read_same : i ≡ j → get_or (set xs i v) j d ≡ v
  read_same e = ground (arith, get_or-set xs i j v d)

  read_other : i ≢ j → get_or (set xs i v) j d ≡ get_or xs j d
  read_other e = ground (arith, get_or-set xs i j v d)

-- Rows with equal parts.
row_path :
    (a b : Row)
    → a.expanded ≡ b.expanded
    → a.saved ≡ b.saved
    → a.stored ≡ b.stored
    → a.datas ≡ b.datas
    → a.disk ≡ b.disk
    → a ≡ b
row_path a b e₁ e₂ e₃ e₄ e₅ =
    λ i. record { expanded = e₁ i; saved = e₂ i; stored = e₃ i; datas = e₄ i; disk = e₅ i }

module _ (p : Packet) (s : Store) (z : Sized s) (inside : p.file_number < 1000) where
  expand-Sized : Sized (expand p s)
  unfolding expand
  expand-Sized = elim (Bool-cases (get_or s.expanded p.file_number false)) [
    | inl e ↦ rw e z
    | inr e ↦ rw e (record {
      stored = length-set s.stored_packet p.file_number _ ∙ z.stored;
      datas = length-set s.datas p.file_number _ ∙ z.datas;
      expanded = length-set s.expanded p.file_number true ∙ z.expanded;
      saved = z.saved;
    })
  ]

  expand-row_same : row_of p.file_number (expand p s) ≡ row_expand p (row_of p.file_number s)
  unfolding expand row_expand
  expand-row_same = elim (Bool-cases (get_or s.expanded p.file_number false)) [
    | inl e ↦ rw e (row_path _ _ e refl refl refl refl)
    | inr e ↦ rw e (
        row_path _ _
          (read_same s.expanded 1000 p.file_number p.file_number true false z.expanded inside refl)
          refl
          (read_same s.stored_packet 1000 p.file_number p.file_number _ [] z.stored inside refl)
          (read_same s.datas 1000 p.file_number p.file_number _ [] z.datas inside refl) refl)
  ]

  expand-row_other : (f : ℕ) → p.file_number ≢ f → row_of f (expand p s) ≡ row_of f s
  unfolding expand
  expand-row_other f ne = elim (Bool-cases (get_or s.expanded p.file_number false)) [
    | inl e ↦ rw e refl
    | inr e ↦ rw e (
        row_path _ _ (read_other s.expanded 1000 p.file_number f true false z.expanded inside ne)
          refl (read_other s.stored_packet 1000 p.file_number f _ [] z.stored inside ne)
          (read_other s.datas 1000 p.file_number f _ [] z.datas inside ne) refl)
  ]

  store_packet-Sized : Sized (store_packet p s)
  unfolding store_packet
  store_packet-Sized =
      elim (Bool-cases (get_or (stored_of s p.file_number) p.packet_number false)) [
        | inl e ↦ rw e z
        | inr e ↦ rw e (record {
          stored = length-set s.stored_packet p.file_number _ ∙ z.stored;
          datas = length-set s.datas p.file_number _ ∙ z.datas;
          expanded = z.expanded;
          saved = z.saved;
        })
      ]

  store_packet-row_same :
      row_of p.file_number (store_packet p s) ≡ row_store p (row_of p.file_number s)
  unfolding store_packet row_store
  store_packet-row_same =
      elim (Bool-cases (get_or (stored_of s p.file_number) p.packet_number false)) [
        | inl e ↦ rw e refl
        | inr e ↦ rw e (
            row_path _ _ refl refl
              (read_same s.stored_packet 1000 p.file_number p.file_number _ [] z.stored inside refl)
              (read_same s.datas 1000 p.file_number p.file_number _ [] z.datas inside refl) refl)
      ]

  store_packet-row_other : (f : ℕ) → p.file_number ≢ f → row_of f (store_packet p s) ≡ row_of f s
  unfolding store_packet
  store_packet-row_other f ne =
      elim (Bool-cases (get_or (stored_of s p.file_number) p.packet_number false)) [
        | inl e ↦ rw e refl
        | inr e ↦ rw e (
            row_path _ _ refl refl
              (read_other s.stored_packet 1000 p.file_number f _ [] z.stored inside ne)
              (read_other s.datas 1000 p.file_number f _ [] z.datas inside ne) refl)
      ]

module _ (g : ℕ) (s : Store) (z : Sized s) (inside : g < 1000) where
  save-Sized : Sized (save g s)
  unfolding save
  save-Sized = record {
    stored = length-set s.stored_packet g _ ∙ z.stored;
    datas = length-set s.datas g _ ∙ z.datas;
    expanded = z.expanded;
    saved = length-set s.file_saved g true ∙ z.saved;
  }

  save-row_same : row_of g (save g s) ≡ row_save (row_of g s)
  unfolding save row_save
  save-row_same =
      row_path _ _ refl (read_same s.file_saved 1001 g g true false z.saved (omega arith) refl)
        (read_same s.stored_packet 1000 g g [] [] z.stored inside refl)
        (read_same s.datas 1000 g g [] [] z.datas inside refl)
        (ground (arith, lookup-insert g g (file_bytes (datas_of s g)) s.files))

  save-row_other : (f : ℕ) → g ≢ f → row_of f (save g s) ≡ row_of f s
  unfolding save
  save-row_other f ne =
      row_path _ _ refl (read_other s.file_saved 1001 g f true false z.saved (omega arith) ne)
        (read_other s.stored_packet 1000 g f [] [] z.stored inside ne)
        (read_other s.datas 1000 g f [] [] z.datas inside ne)
        (ground (arith, lookup-insert g f (file_bytes (datas_of s g)) s.files))

-- The whole body of the loop.
module _ (p : Packet) (s : Store) (z : Sized s) (inside : p.file_number < 1000) where
  middle-Sized : Sized (store_packet p (expand p s))
  middle-Sized = store_packet-Sized p (expand p s) (expand-Sized p s z inside) inside

  pub receive-Sized : Sized (receive p s).1
  unfolding receive
  receive-Sized = ground (
    arith,
    z,
    expand-Sized p s z inside,
    middle-Sized,
    save-Sized p.file_number (store_packet p (expand p s)) middle-Sized inside,
  )

  middle_same :
      row_of p.file_number (store_packet p (expand p s))
      ≡ row_store p (row_expand p (row_of p.file_number s))
  middle_same =
      store_packet-row_same p (expand p s) (expand-Sized p s z inside) inside
      ∙ ap (row_store p) (expand-row_same p s z inside)

  pub receive-row_same :
      row_receive p (row_of p.file_number s)
      ≡ ((receive p s).0, row_of p.file_number (receive p s).1)
  unfolding receive row_receive
  receive-row_same = elim (Bool-cases (p.checksum == packet_crc p)) [
    | inr bad ↦ rw bad refl
    | inl good ↦
        rw (good, ← expand-row_same p s z inside)
          (elim (Bool-cases (is_empty (stored_of (expand p s) p.file_number))) [
            | inl old ↦ rw old refl
            | inr open_file ↦
                let mid = store_packet-row_same p (expand p s) (expand-Sized p s z inside) inside in
                rw (open_file, ← mid)
                  (elim (Bool-cases
                    (save_flg (stored_of (store_packet p (expand p s)) p.file_number))) [
                      | inl full ↦
                          rw
                            (
                              full,
                              ← save-row_same p.file_number (store_packet p (expand p s))
                                  middle-Sized inside,
                            )
                            refl
                      | inr part ↦ rw part refl
                    ])
          ])
  ]

  pub receive-row_other : (f : ℕ) → p.file_number ≢ f → row_of f (receive p s).1 ≡ row_of f s
  unfolding receive
  receive-row_other f ne =
      let one = expand-row_other p s z inside f ne in
      let two =
        store_packet-row_other p (expand p s) (expand-Sized p s z inside) inside f ne ∙ one in
      let three =
        save-row_other p.file_number (store_packet p (expand p s)) middle-Sized inside f ne ∙ two in
      elim (Bool-cases (p.checksum == packet_crc p)) [
        | inr bad ↦ rw bad refl
        | inl good ↦ elim (Bool-cases (is_empty (stored_of (expand p s) p.file_number))) [
          | inl old ↦ rw (good, old) one
          | inr open_file ↦
              elim (Bool-cases (save_flg (stored_of (store_packet p (expand p s)) p.file_number))) [
                | inl full ↦ rw (good, open_file, full) three
                | inr part ↦ rw (good, open_file, part) two
              ]
        ]
      ]
