-- ===== src/Kjl/Padding.antt =====
-- lab6/others/KJL/server.cpp: the zeros behind the stream, read as the heads of files.
use inp.Common.{
  ℕ, zero, suc, ◌+◌, ◌-◌, ◌*◌, ◌^◌, ◌≤◌, ◌<◌, ◌≡◌, refl, sym, ap, ◌∙◌, List, [], ◌∷◌, ◌++◌, Option,
  none, some, ◌==◌, if◌then◌else◌, length, take, drop, replicate, length-drop, length-replicate,
  take_all, append_nil, take-append-drop, All, arith,
}
use inp.Common.Bytes.{Bytes}
use mathlib.Core.List.{append_assoc}
use inp.Star.{chunk_size, bytes_u32, padded, pack}
use inp.Star.Server.{unpack, add_file}
use inp.Star.Pack.{numbered, unpack_step}
use inp.Star.Assemble.{slices, padded_full, length-take_full}

-- What is left of the zeros when fewer than eight of them make no head.
unfoldable pub tail_of : ℕ → Option (List (ℕ × Bytes))
tail_of r = if r == 0 then some [] else none

abbrev pub add_files : List (ℕ × Bytes) → Option (List (ℕ × Bytes)) → Option (List (ℕ × Bytes))
add_files [] later = later
add_files (file ∷ files) later = add_file file (add_files files later)

unpack_short : (fuel r : ℕ) → 1 ≤ fuel → r < 8 → unpack fuel (replicate r 0) ≡ tail_of r
unfolding unpack tail_of
unpack_short zero r h k = absurd (omega arith)
unpack_short (suc fuel) r h k = ground (arith, length-replicate {A = ℕ} r 0)

eight_zeros :
    (fuel n : ℕ)
    → unpack (suc fuel) (replicate (8 + n) 0) ≡ add_file (0, []) (unpack fuel (replicate n 0))
unfolding bytes_u32
eight_zeros fuel n =
    let shift : 8 + n ≡ suc (suc (suc (suc (suc (suc (suc (suc n))))))) = omega arith in
    rw shift (unpack_step fuel 0 [] (replicate n 0) (omega arith) (omega arith))

-- Zeros as the heads of files: eight of them are an empty file with the number 0.
pub unpack-zeros :
    (fuel n r : ℕ)
    → n < fuel
    → r < 8
    → unpack fuel (replicate (8 * n + r) 0) ≡ add_files (replicate n (0, [])) (tail_of r)
unpack-zeros zero n r h k = absurd (omega arith)
unpack-zeros (suc fuel) zero r h k =
    let same : 8 * 0 + r ≡ r = omega arith in rw same (unpack_short (suc fuel) r (omega arith) k)
unpack-zeros (suc fuel) (suc n) r h k =
    let shift : 8 * suc n + r ≡ 8 + (8 * n + r) = omega arith in
    rw shift
      (eight_zeros fuel (8 * n + r) ∙ ap (add_file (0, [])) (unpack-zeros fuel n r (omega arith) k))

-- The packed files, and what follows them.
pub unpack-pack_append :
    (fuel idx : ℕ) (files : List Bytes) (rest : Bytes)
    → idx + length files < 2 ^ 32
    → All (λ file. length file < 2 ^ 32) files
    → unpack (length files + fuel) (pack idx files ++ rest)
      ≡ add_files (numbered idx files) (unpack fuel rest)
unfolding pack bytes_u32
unpack-pack_append fuel idx [] rest h fit =
    let same : 0 + fuel ≡ fuel = omega arith in ap (λ n. unpack n rest) same
unpack-pack_append fuel idx (file ∷ files) rest h fit =
    let shift : suc (length files) + fuel ≡ suc (length files + fuel) = omega arith in
    rw (shift, append_assoc file (pack (suc idx) files) rest)
      (unpack_step (length files + fuel) idx file (pack (suc idx) files ++ rest) (omega arith) fit.0
        ∙ ap (add_file (idx, file))
            (unpack-pack_append fuel (suc idx) files rest (omega arith) fit.1))

-- The chunks of a stream are the stream and zeros.
pub slices-zeros :
    (n : ℕ) (stream : Bytes)
    → length stream ≤ n * chunk_size
    → n * chunk_size < length stream + chunk_size
    → slices n stream ≡ stream ++ replicate (n * chunk_size - length stream) 0
unfolding slices padded
slices-zeros zero [] h k = refl
slices-zeros zero (x ∷ stream) h k = absurd (omega arith)
slices-zeros (suc zero) stream h k =
    let short : length stream ≤ chunk_size = omega arith in
    rw (take_all chunk_size stream short) (append_nil _)
slices-zeros (suc (suc n)) stream h k =
    let long : chunk_size ≤ length stream = omega arith in
    let left = length-drop chunk_size stream in
    let later =
      slices-zeros (suc n) (drop chunk_size stream) (omega (arith, left)) (omega (arith, left)) in
    let pad : suc n * chunk_size - length (drop chunk_size stream)
        ≡ suc (suc n) * chunk_size - length stream =
      omega (arith, left) in
    let whole = take-append-drop chunk_size stream in
    let zeros : Bytes = replicate (suc (suc n) * chunk_size - length stream) 0 in
    rw (padded_full (take chunk_size stream) (length-take_full stream long), later, pad)
      (sym (append_assoc (take chunk_size stream) (drop chunk_size stream) zeros)
        ∙ ap (λ s. s ++ zeros) whole)
