-- ===== src/Kjl/Saving.antt =====
-- lab6/others/KJL/server.cpp: what a batch leaves on the disk.
use inp.Common.{
  ℕ, zero, suc, ◌+◌, ◌-◌, ◌*◌, ◌/◌, ◌%◌, ◌^◌, ◌≤◌, ◌<◌, ◌≡◌, inl, inr, refl, sym, ap, ◌∙◌, true,
  false, List, [], ◌∷◌, ◌++◌, none, some, leb, ◌==◌, Bool-cases, length, replicate, take_all,
  length-append, length-replicate, All, arith,
}
use Prim.Native.Nat.{min}
use inp.Common.Bytes.{Bytes}
use inp.Common.Maps.{Map, lookup, insert, lookup-insert}
use inp.Star.{chunk_size, pack, bytes_u32}
use inp.Star.Server.{Server, is_waiting, assemble, buffer_size, unpack, add_file}
use inp.Star.Pack.{numbered}
use inp.Star.Entries.{Entries, length-piece}
use inp.Star.Assemble.{ne→==, lt→leb, slices, assemble-slices}
use inp.Star.Deliver.{Collected}
use inp.Star.Saved.{ended}
use inp.Kjl.{copy_chunks, unpack_whole, written_files}
use inp.Kjl.Padding.{add_files, tail_of, unpack-zeros, unpack-pack_append, slices-zeros}

-- On whole chunks inside the buffer the two loops do the same.
none-some : {w : Bytes} → none ≡ some w → ⊥
none-some h = ground arith

leb→le : {a b : ℕ} → leb a b ≡ true → a ≤ b
leb→le h = ground arith

copy_chunks-assemble :
    (comp : Bytes) (lo : ℕ) (m : Map Bytes) (buffer whole : Bytes)
    → 1 ≤ lo
    → Entries comp lo m
    → assemble buffer m ≡ some whole
    → copy_chunks buffer m ≡ some whole
unfolding copy_chunks assemble Entries
copy_chunks-assemble comp lo [] buffer whole low h e = e
copy_chunks-assemble comp lo ((k, v) ∷ m) buffer whole low h e =
    let nonzero : (k == 0) ≡ false = ne→== (omega (arith, h.0, low)) in
    elim (Bool-cases (leb (k * chunk_size) (length buffer))) [
      | inl inside ↦
          let at = leb→le inside in
          let full : min chunk_size (length buffer - (k - 1) * chunk_size) ≡ chunk_size =
            omega (arith, at, h.0, low) in
          let room : leb ((k - 1) * chunk_size) (length buffer) ≡ true =
            lt→leb (omega (arith, at)) in
          let size_v : length v ≡ chunk_size = rw h.2 (length-piece comp k) in
          let same = take_all chunk_size v (omega (arith, size_v)) in
          rw (nonzero, room, full, same)
            (copy_chunks-assemble comp (suc k) m _ whole (omega arith) h.3
              (rw (nonzero, inside) at e))
      | inr outside ↦ absurd (none-some (rw (nonzero, outside) at e))
    ]

length-pack_heads : (idx : ℕ) (files : List Bytes) → 8 * length files ≤ length (pack idx files)
unfolding pack bytes_u32
length-pack_heads idx [] = omega arith
length-pack_heads idx (file ∷ files) =
    omega (arith, length-append file (pack (suc idx) files), length-pack_heads (suc idx) files)

-- What the loop of `save_to_file` reads: the packed files, and the zeros behind them.
pub unpack_whole_lem :
    (st : ℕ) (files : List Bytes) (pad : ℕ)
    → 1 ≤ length files
    → st + length files < 2 ^ 32
    → All (λ file. length file < 2 ^ 32) files
    → unpack_whole (some (pack st files ++ replicate pad 0))
      ≡ add_files (numbered st files) (add_files (replicate (pad / 8) (0, [])) (tail_of (pad % 8)))
unpack_whole_lem st files pad some_files few fit =
    let heads = length-pack_heads st files in
    let size = length-append (pack st files) (replicate {A = ℕ} pad 0) in
    let fuel = length (pack st files) - length files + pad in
    let split : length (pack st files ++ replicate {A = ℕ} pad 0) ≡ length files + fuel =
      omega (arith, heads, size, length-replicate {A = ℕ} pad 0) in
    let parts : 8 * (pad / 8) + pad % 8 ≡ pad = omega arith in
    let zero_part =
      unpack-zeros fuel (pad / 8) (pad % 8) (omega (arith, heads, some_files)) (omega arith) in
    ap (λ n. unpack n (pack st files ++ replicate pad 0)) split
    ∙ (unpack-pack_append fuel st files (replicate pad 0) few fit
        ∙ ap (add_files (numbered st files))
            (ap (λ n. unpack fuel (replicate n 0)) (sym parts) ∙ zero_part))

pub add_files-some :
    (files later : List (ℕ × Bytes)) → add_files files (some later) ≡ some (files ++ later)
add_files-some [] later = refl
add_files-some (file ∷ files) later = ap (add_file file) (add_files-some files later)

pub add_files-none : (files : List (ℕ × Bytes)) → add_files files none ≡ none
add_files-none [] = refl
add_files-none (file ∷ files) = ap (add_file file) (add_files-none files)

pub written_files-append :
    (files later : List (ℕ × Bytes)) (disk : Map Bytes)
    → written_files (files ++ later) disk ≡ written_files later (written_files files disk)
unfolding written_files
written_files-append [] later disk = refl
written_files-append (file ∷ files) later disk =
    written_files-append files later (insert file.0 file.1 disk)

-- Empty files with the number 0 leave that file empty.
pub emptied :
    (n : ℕ) (disk : Map Bytes) → lookup 0 (written_files (replicate (suc n) (0, [])) disk) ≡ some []
unfolding written_files
emptied zero disk = lookup-insert 0 0 [] disk
emptied (suc n) disk = emptied n (insert 0 [] disk)

-- What stands in the buffer once the loop over the packets has ended.
pub copied :
    (stream : Bytes) (s : Server)
    → 1 ≤ length stream
    → length stream + chunk_size < 2 ^ 32
    → Collected stream s
    → is_waiting s ≡ false
    → copy_chunks (replicate (buffer_size s.comp_size) 0) s.data_map
      ≡ some (stream ++ replicate (buffer_size (length stream) - length stream) 0)
unfolding Collected
copied stream s some_bytes small h over =
    let end = ended stream s small h over in
    let n = length s.data_map in
    let buffer : Bytes = replicate (buffer_size (length stream)) 0 in
    let size = length-replicate {A = ℕ} (buffer_size (length stream)) 0 in
    let whole = assemble-slices stream s.data_map buffer some_bytes h.1 end.1 size in
    let buffer_is : n * chunk_size ≡ buffer_size (length stream) = sym whole.0 ∙ size in
    rw end.0 (
      copy_chunks-assemble stream 1 s.data_map buffer (slices n stream) (omega arith) h.1 whole.2
      ∙ ap some (
          slices-zeros n stream end.1 whole.1
          ∙ ap (λ k. stream ++ replicate (k - length stream) 0) buffer_is))
