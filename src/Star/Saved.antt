-- ===== src/Star/Saved.antt =====
-- lab6/others/Star/src: the files that server.cpp saves are those that client.cpp has read.
use inp.Common.{
  ℕ, suc, ◌+◌, ◌*◌, ◌^◌, ◌≤◌, ◌<◌, ◌≡◌, inl, inr, false, List, [], ◌∷◌, some, length, All, arith,
  length-append,
}
use inp.Common.Bytes.{Bytes}
use inp.Star.{chunk_size, pack, bytes_u32}
use inp.Star.Server.{Server, is_waiting, buffer_size, save_to_file}
use inp.Star.Pack.{numbered, unpack-pack}
use inp.Star.Assemble.{assemble-stream}
use inp.Star.Deliver.{Collected}

pub length-pack : (idx : ℕ) (files : List Bytes) → length files ≤ length (pack idx files)
unfolding pack bytes_u32
length-pack idx [] = omega arith
length-pack idx (file ∷ files) =
    omega (arith, length-append file (pack (suc idx) files), length-pack (suc idx) files)

-- The loop has ended only with the whole stream.
pub ended :
    (comp : Bytes) (s : Server)
    → length comp + chunk_size < 2 ^ 32
    → Collected comp s
    → is_waiting s ≡ false
    → (s.comp_size ≡ length comp) × (length comp ≤ length s.data_map * chunk_size)
unfolding is_waiting Collected
ended comp s small (inl unknown, entries, size) over = absurd (ground (arith, unknown, over))
ended comp s small (inr known, entries, size) over = (known, ground (arith, known, size, over))

-- What is saved once the loop has ended.
pub saved_lem :
    (decompress : Bytes → Bytes) (stream : Bytes) (files : List Bytes) (memory : Bytes) (s : Server)
    → decompress stream ≡ pack 0 files
    → length files < 2 ^ 32
    → All (λ file. length file < 2 ^ 32) files
    → 1 ≤ length stream
    → length stream + chunk_size < 2 ^ 32
    → length memory ≡ buffer_size (length stream)
    → Collected stream s
    → is_waiting s ≡ false
    → save_to_file decompress memory s ≡ some (numbered 0 files)
unfolding save_to_file Collected
saved_lem decompress stream files memory s undoes few fit some_bytes small size h over =
    let end = ended stream s small h over in
    let whole = assemble-stream stream s.data_map memory some_bytes h.1 end.1 size in
    let fuel : length files ≤ length (pack 0 files) = length-pack 0 files in
    rw (whole.1, end.0, whole.2, undoes)
      (unpack-pack (length (pack 0 files)) 0 files fuel (omega (arith, few)) fit)
