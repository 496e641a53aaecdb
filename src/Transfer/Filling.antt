-- ===== src/Transfer/Filling.antt =====
-- What the server of lab6/src keeps of a file while honest packets arrive.
use inp.Common.{
  false-true, ℕ, zero, suc, ◌-◌, ◌<◌, ◌≡◌, refl, ap, sym, ◌∙◌, subst, Bool, true, false, List, [],
  ◌∷◌, some, arith, ◌==◌, get_or, get_or-set, length, length-set, take-within, length-replicate,
  replicate, Bool-cases, inl, inr,
}
use inp.Common.Bytes.{Bytes}
use inp.Transfer.{Packet, packet_crc, text_of, packet_size, resize, save_flg, is_empty}
use inp.Transfer.Server.{Row, row_expand, row_store, row_save, row_receive}
use inp.Transfer.Files.{
  piece, file_bytes_lem, save_flg_all, Genuine, Fresh, Filling, Done, RowOk, Has,
}

abbrev no_piece : Bytes
no_piece = []

pub get_or-replicate {ℓ} : {A : Type ℓ} (n i : ℕ) (a : A) → get_or (replicate n a) i a ≡ a
get_or-replicate zero i a = refl
get_or-replicate (suc n) zero a = refl
get_or-replicate (suc n) (suc i) a = get_or-replicate n i a

resize_none {ℓ} : {A : Type ℓ} (n : ℕ) (a : A) → resize n a [] ≡ replicate n a
unfolding resize
resize_none zero a = refl
resize_none (suc n) a = let e : suc n - 0 ≡ suc n = omega arith in ap (λ k. replicate k a) e

pub is_empty_none : (xs : List Bool) → xs ≡ [] → is_empty xs ≡ true
unfolding is_empty
is_empty_none xs e = rw e refl

is_empty_not : (xs : List Bool) → 0 < length xs → is_empty xs ≡ false
unfolding is_empty
is_empty_not [] h = absurd (omega arith)
is_empty_not (x ∷ xs) h = refl

row_expand-same : (p : Packet) (r : Row) → r.expanded ≡ true → row_expand p r ≡ r
unfolding row_expand
row_expand-same p r e = rw e refl

module _ (file : Bytes) (p : Packet) (g : Genuine file p) where
  -- The first packet gives the file its rows.
  row_expand-Fresh : (r : Row) → Fresh r → Filling file (row_expand p r)
  unfolding row_expand
  row_expand-Fresh r f = rw f.expanded (record {
    expanded = refl;
    saved = f.saved;
    stored =
        rw (f.stored, resize_none p.total_packets false)
          (length-replicate p.total_packets false ∙ g.total);
    datas =
        rw (f.datas, resize_none {A = Bytes} p.total_packets [])
          (length-replicate p.total_packets no_piece ∙ g.total);
    right = λ i h.
        let none_yet =
          ap (λ row. get_or row i false)
            (ap (resize p.total_packets false) f.stored ∙ resize_none p.total_packets false)
          ∙ get_or-replicate p.total_packets i false in
        absurd (false-true (sym none_yet ∙ h));
    disk = f.disk;
  })

  row_store-Filling :
      (r : Row)
      → Filling file r
      → Filling file (row_store p r)
        × (get_or (row_store p r).stored p.packet_number false ≡ true)
        × ((i : ℕ) → get_or r.stored i false ≡ true → get_or (row_store p r).stored i false ≡ true)
  unfolding row_store
  row_store-Filling r f = elim (Bool-cases (get_or r.stored p.packet_number false)) [
    | inl e ↦ rw e (f, e, λ i h. h)
    | inr e ↦
        let bits = λ (i : ℕ).
          get_or-set r.stored p.packet_number i true false (omega (arith, g.number, f.stored)) in
        let pieces = λ (i : ℕ).
          get_or-set r.datas p.packet_number i (text_of p) [] (omega (arith, g.number, f.datas)) in
        let text : text_of p ≡ piece packet_size file p.packet_number =
          take-within p.length p.packet_data p.behind g.fits ∙ g.content in
        rw e (
          record {
            expanded = f.expanded;
            saved = f.saved;
            stored = length-set r.stored p.packet_number true ∙ f.stored;
            datas = length-set r.datas p.packet_number _ ∙ f.datas;
            right = λ i h. elim (Bool-cases (p.packet_number == i)) [
              | inl k ↦
                  let same : p.packet_number ≡ i = ground arith in
                  rw (pieces i, k) (rw (← same) text)
              | inr k ↦ rw (pieces i, k) (f.right i (ground (arith, bits i)))
            ];
            disk = f.disk;
          },
          ground (arith, bits p.packet_number),
          λ i h. ground (arith, bits i),
        )
  ]

-- A full row makes the file.
row_save-Done :
    (file : Bytes) (r : Row) → Filling file r → save_flg r.stored ≡ true → Done file (row_save r)
unfolding row_save
row_save-Done file r f full = record {
  expanded = f.expanded;
  saved = refl;
  stored = refl;
  disk = ap some (
      file_bytes_lem packet_size r.datas file
        (λ i p. f.right i (save_flg_all r.stored full i (omega arith))) (omega arith));
}

-- What a packet does to the row of its file.
pub record Better (file : Bytes) (p : Packet) (r r' : Row) : Type 0 where
  pub ok : RowOk file r'
  pub keeps : (i : ℕ) → Has i r → Has i r'
  pub stays : r.saved ≡ true → r'.saved ≡ true
  pub takes : p.checksum ≡ packet_crc p → Has p.packet_number r'

module _ (file : Bytes) (p : Packet) (g : Genuine file p)
    (good : (p.checksum == packet_crc p) ≡ true) where
  fill-Better :
      (r : Row)
      → r.saved ≡ false
      → Filling file (row_expand p r)
      → ((i : ℕ) → Has i r → Has i (row_expand p r))
      → Better file p r (row_receive p r).1
  unfolding row_receive
  fill-Better r unsaved f h =
      let (f₂, has, keep) = row_store-Filling file p g (row_expand p r) f in
      rw (good, is_empty_not (row_expand p r).stored (omega (arith, f.stored)))
        (elim (Bool-cases (save_flg (row_store p (row_expand p r)).stored)) [
          | inl full ↦
              let done = row_save-Done file (row_store p (row_expand p r)) f₂ full in
              rw full (record {
                ok = inr (inr done);
                keeps = λ i k. inl done.saved;
                stays = λ k. done.saved;
                takes = λ k. inl done.saved;
              })
          | inr part ↦ rw part (record {
            ok = inr (inl (f₂, part));
            keeps = λ i k. elim (h i k) [
              | inl old ↦ inl (ground (arith, f.saved))
              | inr bit ↦ inr (keep i bit)
            ];
            stays = λ k. absurd (ground arith);
            takes = λ k. inr has;
          })
        ])

pub not-Fresh : (r : Row) → Fresh r → (i : ℕ) → Has i r → ⊥
not-Fresh r f i h = elim h [
  | inl e ↦ ground (arith, f.saved)
  | inr e ↦ let k = rw f.stored at e in ground arith
]

Done-Better :
    (file : Bytes) (p : Packet) (r : Row) → Done file r → Better file p r (row_receive p r).1
unfolding row_receive
Done-Better file p r d = elim (Bool-cases (p.checksum == packet_crc p)) [
  | inr bad ↦
      rw bad
        (record { ok = inr (inr d); keeps = λ i h. h; stays = λ h. h; takes = λ h. inl d.saved })
  | inl good ↦
      rw (good, row_expand-same p r d.expanded, is_empty_none r.stored d.stored)
        (record { ok = inr (inr d); keeps = λ i h. h; stays = λ h. h; takes = λ h. inl d.saved })
]

-- An honest packet: it is the file's, or its checksum does not fit.
abbrev pub Honest : Bytes → Packet → Type 0
Honest file p = p.checksum ≡ packet_crc p → Genuine file p

pub row_receive-Better :
    (file : Bytes) (p : Packet) (r : Row)
    → Honest file p
    → RowOk file r
    → Better file p r (row_receive p r).1
unfolding row_receive
row_receive-Better file p r honest o = elim (Bool-cases (p.checksum == packet_crc p)) [
  | inr bad ↦
      rw bad
        (record { ok = o; keeps = λ i h. h; stays = λ h. h; takes = λ h. absurd (ground arith) })
  | inl good ↦
      let g = honest (ground arith) in
      elim o [
        | inl fresh ↦
            fill-Better file p g good r fresh.saved (row_expand-Fresh file p g r fresh)
              (λ i h. absurd (not-Fresh r fresh i h))
        | inr (inl (f, part)) ↦
            let same = row_expand-same p r f.expanded in
            fill-Better file p g good r f.saved (subst (Filling file) (sym same) f)
              (λ i h. subst (Has i) (sym same) h)
        | inr (inr d) ↦ Done-Better file p r d
      ]
]
