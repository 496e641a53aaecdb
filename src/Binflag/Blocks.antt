-- ===== src/Binflag/Blocks.antt =====
-- The loop of lab2/lab2.c over the blocks of a file.
use inp.Common.{
  ℕ, zero, suc, ◌+◌, ◌-◌, ◌*◌, ◌/◌, ◌%◌, ◌^◌, ◌≤◌, ◌<◌, ◌≡◌, refl, sym, ap, ◌∙◌, inl, inr, true,
  false, List, [], ◌∷◌, ◌++◌, some, leb, ◌==◌, if◌then◌else◌, Bool-cases, length, get_or, take,
  drop, All, length-append, length-take, length-drop, drop-append, arith,
}
use inp.Common.Bytes.{Bytes}
use inp.Common.Fields.{field_u16, field_u32}
use inp.Common.Text.{replace}
use Prim.Native.Nat.{bit_xor}
use inp.Common.Xor.{zero-bit_xor, half, bit_xor_comm, bit_xor_step}
use inp.Binflag.{
  convert_indian_u16, convert_indian_u32, Memory, read_into, xored, copy_into, read_block,
  read_blocks, with_stream,
}
use inp.Binflag.Endian.{big_u16, big_u32}
use inp.Binflag.Image.{Block, check_sum, encode_block, encode_blocks, patched, contents, IsBlock}

-- Reading what the file holds.
pub read_into-append :
    (memory : Memory) (at : ℕ) (xs rest : Bytes) → read_into memory at (length xs) (xs ++ rest) ≡ xs
unfolding read_into
read_into-append memory at [] rest = refl
read_into-append memory at (x ∷ xs) rest = ap (◌∷◌ x) (read_into-append memory (suc at) xs rest)

pub convert_indian_u16_lem : (n : ℕ) → n < 2 ^ 16 → convert_indian_u16 (n / 256 + n % 256 * 256) ≡ n
unfolding convert_indian_u16
convert_indian_u16_lem n h = omega arith

pub convert_indian_u32_lem :
    (n : ℕ)
    → n < 2 ^ 32
    → convert_indian_u32
        (n / 16777216 + n / 65536 % 256 * 256 + n / 256 % 256 * 65536 + n % 256 * 16777216)
      ≡ n
unfolding convert_indian_u32
convert_indian_u32_lem n h = omega arith

bit_xor_assoc :
    (n a b c : ℕ) → a ≤ n → b ≤ n → c ≤ n → bit_xor (bit_xor a b) c ≡ bit_xor a (bit_xor b c)
bit_xor_assoc zero a b c p q r =
    let za : a ≡ 0 = omega arith in
    let zb : b ≡ 0 = omega arith in let zc : c ≡ 0 = omega arith in rw (za, zb, zc) refl
bit_xor_assoc (suc n) a b c p q r = omega (
  arith,
  bit_xor_step (bit_xor a b) c,
  bit_xor_step a (bit_xor b c),
  bit_xor_step a b,
  bit_xor_step b c,
  ap (λ x. bit_xor x (c / 2)) (half a b),
  ap (bit_xor (a / 2)) (half b c),
  bit_xor_assoc n (a / 2) (b / 2) (c / 2) (omega arith) (omega arith) (omega arith),
)

xored_lem :
    (beyond v : ℕ) (payload : Bytes)
    → length payload % 2 ≡ 0
    → xored beyond payload v ≡ bit_xor v (check_sum payload)
unfolding xored check_sum
xored_lem beyond v [] h = sym (zero-bit_xor v) ∙ bit_xor_comm v 0 v (omega arith) (omega arith)
xored_lem beyond v (a ∷ []) h = absurd (omega arith)
xored_lem beyond v (a ∷ b ∷ payload) h =
    xored_lem beyond (bit_xor v (a * 256 + b)) payload (omega arith)
    ∙ bit_xor_assoc (v + (a * 256 + b) + check_sum payload) v (a * 256 + b) (check_sum payload)
        (omega arith) (omega arith) (omega arith)

-- What `memcpy` leaves of the data.
get_or-append :
    (xs ys : Bytes) (i : ℕ)
    → (i < length xs → get_or (xs ++ ys) i 0 ≡ get_or xs i 0)
      × (length xs ≤ i → get_or (xs ++ ys) i 0 ≡ get_or ys (i - length xs) 0)
get_or-append [] ys i = (λ h. absurd (omega arith), λ h. ap (λ k. get_or ys k 0) (omega arith))
get_or-append (x ∷ xs) ys zero = (λ h. refl, λ h. absurd (omega arith))
get_or-append (x ∷ xs) ys (suc i) =
    let rest = get_or-append xs ys i in
    (λ h. rest.0 (omega arith), λ h. rest.1 (omega arith) ∙ ap (λ k. get_or ys k 0) (omega arith))

get_or-drop : (n : ℕ) (xs : Bytes) (i : ℕ) → get_or (drop n xs) i 0 ≡ get_or xs (n + i) 0
get_or-drop zero xs i = ap (λ k. get_or xs k 0) (omega arith)
get_or-drop (suc n) [] i = refl
get_or-drop (suc n) (x ∷ xs) i =
    let shift : suc n + i ≡ suc (n + i) = omega arith in rw shift (get_or-drop n xs i)

-- What `memcpy` leaves of the data.
get_or-replace :
    (pos : ℕ) (s t : Bytes) (i : ℕ)
    → pos + length t ≤ length s
    → let copied = replace s pos (length t) t in
      (pos ≤ i → i < pos + length t → get_or copied i 0 ≡ get_or t (i - pos) 0)
      × (i < pos → get_or copied i 0 ≡ get_or s i 0)
      × (pos + length t ≤ i → get_or copied i 0 ≡ get_or s i 0)
unfolding replace
get_or-replace zero s t i h =
    let both = get_or-append t (drop (0 + length t) s) i in
    (
      λ low high. both.0 (omega arith) ∙ ap (λ k. get_or t k 0) (omega arith),
      λ low. absurd (omega arith),
      λ high.
          both.1 (omega arith)
          ∙ (get_or-drop (0 + length t) s (i - length t) ∙ ap (λ k. get_or s k 0) (omega arith)),
    )
get_or-replace (suc pos) [] t i h = absurd (omega arith)
get_or-replace (suc pos) (x ∷ s) t zero h =
    (λ low high. absurd (omega arith), λ low. refl, λ high. absurd (omega arith))
get_or-replace (suc pos) (x ∷ s) t (suc i) h =
    let later = get_or-replace pos s t i (omega arith) in
    let shift : suc pos + length t ≡ suc (pos + length t) = omega arith in
    rw shift (
      λ low high. later.0 (omega arith) (omega arith) ∙ ap (λ k. get_or t k 0) (omega arith),
      λ low. later.1 (omega arith),
      λ high. later.2 (omega arith),
    )

length-replace :
    (s t : Bytes) (pos : ℕ)
    → pos + length t ≤ length s
    → length (replace s pos (length t) t) ≡ length s
unfolding replace
length-replace s t pos h = omega (
  arith,
  length-append (take pos s) (t ++ drop (pos + length t) s),
  length-append t (drop (pos + length t) s),
  length-take pos s,
  length-drop (pos + length t) s,
)

-- `dict` holds the data.
unfoldable pub Holds : ℕ → (ℕ → ℕ) → Bytes → Type 0
Holds n data_at dict = (length dict ≡ n) × ((i : ℕ) → i < n → get_or dict i 0 ≡ data_at i)

copy_into-Holds :
    (n : ℕ) (data_at : ℕ → ℕ) (b : Block) (dict : Bytes)
    → Holds n data_at dict
    → b.offset + length b.payload ≤ n
    → check_sum b.payload ≡ b.cksum
    → (copied : Bytes) × (copy_into dict b.offset b.payload ≡ some copied)
      × Holds n (patched data_at b) copied
unfolding copy_into Holds patched
copy_into-Holds n data_at b dict h fits right =
    let whole : b.offset + length b.payload ≤ length dict = omega (arith, h.0, fits) in
    let test : leb (b.offset + length b.payload) (length dict) ≡ true = ground arith in
    (
      replace dict b.offset (length b.payload) b.payload,
      rw test refl,
      (
        length-replace dict b.payload b.offset whole ∙ h.0,
        λ i small.
            ground (arith, right, get_or-replace b.offset dict b.payload i whole, h.1 i small),
      ),
    )

skip-Holds :
    (n : ℕ) (data_at : ℕ → ℕ) (b : Block) (dict : Bytes)
    → Holds n data_at dict
    → (check_sum b.payload == b.cksum) ≡ false
    → Holds n (patched data_at b) dict
unfolding Holds patched
skip-Holds n data_at b dict h wrong = (h.0, λ i small. ground (arith, h.1 i small))

pub read_block_parts :
    (memory : Memory) (b : Block) (dict rest : Bytes)
    → b.offset < 2 ^ 32
    → b.cksum < 2 ^ 16
    → length b.payload < 2 ^ 16
    → length b.payload % 2 ≡ 0
    → read_block memory record { stream = encode_block b rest; dict = dict }
      ≡ with_stream rest
          (if check_sum b.payload == b.cksum then copy_into dict b.offset b.payload else some dict)
unfolding read_block encode_block big_u16 big_u32 field_u16 field_u32 read_into
read_block_parts memory b dict rest offset_fits cksum_fits length_fits even =
    let payload = read_into-append memory 8 b.payload rest in
    rw
      (
        convert_indian_u16_lem (length b.payload) length_fits,
        convert_indian_u32_lem b.offset offset_fits,
        convert_indian_u16_lem b.cksum cksum_fits,
        payload,
        drop-append b.payload rest,
        xored_lem (memory (8 + length b.payload)) 0 b.payload even,
        zero-bit_xor (check_sum b.payload),
      )
      refl

-- A turn of the loop copies the payload of a block with a right checksum and passes over any other.
pub read_block_lem :
    (memory : Memory) (n : ℕ) (data_at : ℕ → ℕ) (b : Block) (dict rest : Bytes)
    → IsBlock n b
    → Holds n data_at dict
    → (next : Bytes) × (read_block memory record { stream = encode_block b rest; dict = dict }
        ≡ some record { stream = rest; dict = next })
      × Holds n (patched data_at b) next
unfolding IsBlock
read_block_lem memory n data_at b dict rest h holds =
    let parts = read_block_parts memory b dict rest h.0 h.1 h.2 h.3 in
    elim (Bool-cases (check_sum b.payload == b.cksum)) [
      | inl right ↦
          let same : check_sum b.payload ≡ b.cksum = ground arith in
          let copied = copy_into-Holds n data_at b dict holds (h.4 same) same in
          (copied.0, rw (parts, right, copied.1) refl, copied.2)
      | inr wrong ↦ (dict, rw (parts, wrong) refl, skip-Holds n data_at b dict holds wrong)
    ]

pub read_blocks_lem :
    (memory : ℕ → Memory) (n : ℕ) (data_at : ℕ → ℕ) (blocks : List Block) (dict rest : Bytes)
    → All (IsBlock n) blocks
    → Holds n data_at dict
    → (final : Bytes) × (read_blocks memory
          (length blocks)
          record { stream = encode_blocks blocks rest; dict = dict }
        ≡ some record { stream = rest; dict = final })
      × Holds n (contents data_at blocks) final
unfolding read_blocks encode_blocks contents
read_blocks_lem memory n data_at [] dict rest h holds = (dict, refl, holds)
read_blocks_lem memory n data_at (b ∷ blocks) dict rest h holds =
    let next =
      read_block_lem (memory (length blocks)) n data_at b dict (encode_blocks blocks rest) h.0
        holds in
    let later = read_blocks_lem memory n (patched data_at b) blocks next.0 rest h.1 next.2 in
    (later.0, rw (read_blocks, next.1) later.1, later.2)
