-- ===== src/Binflag/Flags.antt =====
-- lab2/lab2.c from the file to what it prints.
use inp.Common.{
  ℕ, zero, suc, ◌+◌, ◌*◌, ◌^◌, ◌<◌, ◌≡◌, refl, ap, true, List, [], ◌∷◌, some, ltb, length, get_or,
  replicate, All, All-map, length-replicate, arith,
}
use inp.Common.Bytes.{Bytes}
use inp.Common.Fields.{field_u16, field_u32}
use inp.Binflag.{Memory, read_into, offsets_of, print_flags, read_flags, run_main}
use inp.Binflag.Endian.{big_u16, big_u32}
use inp.Binflag.Image.{Image, encode, encode_flags, encode_offsets, contents, words_at, IsImage}
use inp.Binflag.Blocks.{Holds, read_blocks_lem, convert_indian_u16_lem, convert_indian_u32_lem}

offsets_of_lem :
    (memory : Memory) (at : ℕ) (flags : List ℕ) (rest : Bytes)
    → All (λ flag. flag < 2 ^ 32) flags
    → offsets_of (length flags) (read_into memory at (4 * length flags) (encode_offsets flags rest))
      ≡ flags
unfolding offsets_of read_into encode_offsets big_u32 field_u32
offsets_of_lem memory at [] rest h = refl
offsets_of_lem memory at (flag ∷ flags) rest h =
    let shift : 4 * suc (length flags) ≡ suc (suc (suc (suc (4 * length flags)))) = omega arith in
    rw (shift, convert_indian_u32_lem flag h.0)
      (ap (◌∷◌ flag) (offsets_of_lem memory (suc (suc (suc (suc at)))) flags rest h.1))

print_flags_lem :
    (n : ℕ) (data_at : ℕ → ℕ) (dict : Bytes) (flags : List ℕ)
    → Holds n data_at dict
    → All (λ flag. flag + 1 < n) flags
    → print_flags dict flags ≡ some (words_at data_at flags)
unfolding print_flags words_at Holds
print_flags_lem n data_at dict [] holds h = refl
print_flags_lem n data_at dict (flag ∷ flags) holds h =
    let inside : ltb (flag + 1) (length dict) ≡ true = ground (arith, holds.0, h.0) in
    let first = holds.1 flag (omega (arith, h.0)) in
    let second = holds.1 (flag + 1) h.0 in
    rw (print_flags_lem n data_at dict flags holds h.1, inside, first, second) refl

get_or-zeros : (n i : ℕ) → get_or {A = ℕ} (replicate n 0) i 0 ≡ 0
get_or-zeros zero i = refl
get_or-zeros (suc n) zero = refl
get_or-zeros (suc n) (suc i) = get_or-zeros n i

zeros-Holds : (n : ℕ) → Holds n (λ i. 0) (replicate n 0)
unfolding Holds
zeros-Holds n = (length-replicate n 0, λ i small. get_or-zeros n i)

read_flags_lem :
    (memory : Memory) (n : ℕ) (data_at : ℕ → ℕ) (dict : Bytes) (flags : List ℕ) (rest : Bytes)
    → length flags < 2 ^ 16
    → All (λ flag. (flag < 2 ^ 32) × (flag + 1 < n)) flags
    → Holds n data_at dict
    → read_flags memory record { stream = encode_flags flags rest; dict = dict }
      ≡ some (words_at data_at flags)
unfolding read_flags encode_flags big_u16 field_u16 read_into
read_flags_lem memory n data_at dict flags rest fits h holds =
    let each = λ (P : ℕ → Type 0) (f : (x : ℕ) → (x < 2 ^ 32) × (x + 1 < n) → P x).
      All-map (λ flag. (flag < 2 ^ 32) × (flag + 1 < n)) P flags f h in
    rw
      (
        convert_indian_u16_lem (length flags) fits,
        offsets_of_lem (λ i. 0) 0 flags rest (each (λ x. x < 2 ^ 32) (λ x b. b.0)),
      )
      (print_flags_lem n data_at dict flags holds (each (λ x. x + 1 < n) (λ x b. b.1)))

-- Whatever fresh memory holds, a file prints the words of its data at its flags. A byte of the data
-- is that of the last block with a right checksum that covers it, and zero where no such block does;
-- a block with a wrong checksum changes nothing, wherever it points.
pub run_main-encode :
    (header_memory : Memory) (block_memory : ℕ → Memory) (flag_memory : Memory) (image : Image)
    (rest : Bytes)
    → IsImage image
    → run_main header_memory block_memory flag_memory (encode image rest)
      ≡ some (words_at (contents (λ i. 0) image.blocks) image.flags)
unfolding run_main encode big_u16 big_u32 field_u16 field_u32 read_into IsImage
run_main-encode header_memory block_memory flag_memory image rest h =
    let n = image.datasize in
    let zeros : Holds n (λ i. 0) (replicate n 0) = zeros-Holds n in
    let read =
      read_blocks_lem block_memory n (λ i. 0) image.blocks (replicate n 0)
        (encode_flags image.flags rest) h.3 zeros in
    rw (convert_indian_u16_lem (length image.blocks) h.1, convert_indian_u32_lem n h.0, read.1)
      (read_flags_lem flag_memory n (contents (λ i. 0) image.blocks) read.0 image.flags rest h.2 h.4
        read.2)
