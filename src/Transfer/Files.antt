-- ===== src/Transfer/Files.antt =====
-- Files in pieces, as lab6/src cuts them and puts them together, and what the server keeps of a file
-- while honest packets arrive.
use inp.Common.{
  ℕ, zero, suc, ◌+◌, ◌*◌, ◌/◌, ◌≤◌, ◌<◌, ◌≡◌, refl, ap, sym, ◌∙◌, Bool, true, false, List, [], ◌∷◌,
  none, some, arith, get_or, length, take, drop, length-drop, take-append-drop, ◌⊎◌,
}
use inp.Common.Bytes.{Bytes}
use inp.Transfer.{Packet, packet_size, save_flg, file_bytes}
use inp.Transfer.Server.{Row}

-- How many packets the client sends of a file.
abbrev pub total_of : Bytes → ℕ
total_of file = length file / packet_size + 1

abbrev pub piece : ℕ → Bytes → ℕ → Bytes
piece size file i = take size (drop (i * size) file)

abbrev no_piece : Bytes
no_piece = []

drop_none : (n : ℕ) → no_piece ≡ drop n no_piece
drop_none zero = refl
drop_none (suc n) = refl

drop-drop : (m n : ℕ) (xs : Bytes) → drop m (drop n xs) ≡ drop (n + m) xs
drop-drop m zero xs = ap (λ k. drop k xs) (omega arith)
drop-drop zero (suc n) [] = drop_none (suc n + 0)
drop-drop (suc m) (suc n) [] = drop_none (suc n + suc m)
drop-drop m (suc n) (x ∷ xs) =
    let e : suc (n + m) ≡ suc n + m = omega arith in drop-drop m n xs ∙ ap (λ k. drop k (x ∷ xs)) e

pub file_bytes_lem :
    (size : ℕ) (datas : List Bytes) (file : Bytes)
    → ((i : ℕ) → i < length datas → get_or datas i [] ≡ piece size file i)
    → length file ≤ length datas * size
    → file_bytes datas ≡ file
unfolding file_bytes
file_bytes_lem size [] [] h p = refl
file_bytes_lem size [] (x ∷ file) h p = absurd (omega arith)
file_bytes_lem size (d ∷ datas) file h p =
    let at_once : 0 * size ≡ 0 = omega arith in
    let first : d ≡ take size file =
      h 0 (omega arith) ∙ ap (λ k. take size (drop k file)) at_once in
    let rest =
      file_bytes_lem size datas (drop size file)
        (λ i q.
          let next : suc i * size ≡ size + i * size = grind arith in
          h (suc i) (omega arith)
          ∙ (ap (λ k. take size (drop k file)) next
              ∙ sym (ap (take size) (drop-drop (i * size) size file))))
        (rw (length-drop size file) (grind arith)) in
    rw (rest, first) (take-append-drop size file)

pub save_flg_all :
    (xs : List Bool) → save_flg xs ≡ true → (i : ℕ) → i < length xs → get_or xs i false ≡ true
unfolding save_flg
save_flg_all [] h i p = absurd (omega arith)
save_flg_all (true ∷ xs) h zero p = refl
save_flg_all (true ∷ xs) h (suc i) p = save_flg_all xs h i (omega arith)
save_flg_all (false ∷ xs) h i p = absurd (ground arith)

pub all-save_flg :
    (xs : List Bool) → ((i : ℕ) → i < length xs → get_or xs i false ≡ true) → save_flg xs ≡ true
unfolding save_flg
all-save_flg [] h = refl
all-save_flg (true ∷ xs) h = all-save_flg xs λ i p. h (suc i) (omega arith)
all-save_flg (false ∷ xs) h = absurd (ground (arith, h 0 (omega arith)))

-- A packet of the file, as the client cuts it.
pub record Genuine (file : Bytes) (p : Packet) : Type 0 where
  pub total : p.total_packets ≡ total_of file
  pub number : p.packet_number < total_of file
  pub fits : p.length ≤ length p.packet_data
  pub content : take p.length p.packet_data ≡ piece packet_size file p.packet_number

-- No packet of the file has come.
pub record Fresh (r : Row) : Type 0 where
  pub expanded : r.expanded ≡ false
  pub saved : r.saved ≡ false
  pub stored : r.stored ≡ []
  pub datas : r.datas ≡ []
  pub disk : r.disk ≡ none

-- Packets have come, and those that are marked are the file's.
pub record Filling (file : Bytes) (r : Row) : Type 0 where
  pub expanded : r.expanded ≡ true
  pub saved : r.saved ≡ false
  pub stored : length r.stored ≡ total_of file
  pub datas : length r.datas ≡ total_of file
  pub right :
      (i : ℕ) → get_or r.stored i false ≡ true → get_or r.datas i [] ≡ piece packet_size file i
  pub disk : r.disk ≡ none

-- The file is on the disk.
pub record Done (file : Bytes) (r : Row) : Type 0 where
  pub expanded : r.expanded ≡ true
  pub saved : r.saved ≡ true
  pub stored : r.stored ≡ []
  pub disk : r.disk ≡ some file

-- A file is not begun, or has a packet missing, or is on the disk.
abbrev pub RowOk : Bytes → Row → Type 0
RowOk file r = Fresh r ⊎ (Filling file r × (save_flg r.stored ≡ false)) ⊎ Done file r

-- The server needs the packet no more.
abbrev pub Has : ℕ → Row → Type 0
Has i r = (r.saved ≡ true) ⊎ (get_or r.stored i false ≡ true)
