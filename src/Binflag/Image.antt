-- ===== src/Binflag/Image.antt =====
-- The files that lab2/lab2.c reads, and what their data is.
use inp.Common.{
  ℕ, ◌+◌, ◌-◌, ◌*◌, ◌%◌, ◌^◌, ◌≤◌, ◌<◌, ◌≡◌, Bool, ◌&&◌, List, [], ◌∷◌, ◌++◌, ltb, leb, ◌==◌,
  if◌then◌else◌, length, get_or, All,
}
use inp.Common.Bytes.{Bytes}
use Prim.Native.Nat.{bit_xor}
use inp.Binflag.{hex_word}
use inp.Binflag.Endian.{big_u16, big_u32}

pub record Block : Type 0 where
  pub offset : ℕ
  pub cksum : ℕ
  pub payload : Bytes

pub record Image : Type 0 where
  pub datasize : ℕ
  pub blocks : List Block
  pub flags : List ℕ

-- The exclusive or of the big-endian words of a payload.
unfoldable pub check_sum : Bytes → ℕ
check_sum [] = 0
check_sum (a ∷ []) = a * 256
check_sum (a ∷ b ∷ payload) = bit_xor (a * 256 + b) (check_sum payload)

unfoldable pub encode_block : Block → Bytes → Bytes
encode_block b rest =
    big_u32 b.offset ++ (big_u16 b.cksum ++ (big_u16 (length b.payload) ++ (b.payload ++ rest)))

unfoldable pub encode_blocks : List Block → Bytes → Bytes
encode_blocks [] rest = rest
encode_blocks (b ∷ blocks) rest = encode_block b (encode_blocks blocks rest)

unfoldable pub encode_offsets : List ℕ → Bytes → Bytes
encode_offsets [] rest = rest
encode_offsets (flag ∷ flags) rest = big_u32 flag ++ encode_offsets flags rest

unfoldable pub encode_flags : List ℕ → Bytes → Bytes
encode_flags flags rest = big_u16 (length flags) ++ encode_offsets flags rest

-- `BINFLAG` and a zero byte, the sizes, two zero bytes, the blocks, the flags, and what follows.
unfoldable pub encode : Image → Bytes → Bytes
encode image rest =
    (66 ∷ 73 ∷ 78 ∷ 70 ∷ 76 ∷ 65 ∷ 71 ∷ 0 ∷ [])
    ++ (big_u32 image.datasize
        ++ (big_u16 (length image.blocks)
            ++ ((0 ∷ 0 ∷ []) ++ encode_blocks image.blocks (encode_flags image.flags rest))))

-- Whether a place is in a block with a right checksum.
abbrev pub is_covered : Block → ℕ → Bool
is_covered b i =
    check_sum b.payload == b.cksum && (leb b.offset i && ltb i (b.offset + length b.payload))

-- The byte of the data at each place: that of the last block with a right checksum that covers it.
unfoldable pub patched : (ℕ → ℕ) → Block → ℕ → ℕ
patched data_at b i = if is_covered b i then get_or b.payload (i - b.offset) 0 else data_at i

unfoldable pub contents : (ℕ → ℕ) → List Block → ℕ → ℕ
contents data_at [] i = data_at i
contents data_at (b ∷ blocks) i = contents (patched data_at b) blocks i

-- The words at the flags, in hexadecimal digits.
unfoldable pub words_at : (ℕ → ℕ) → List ℕ → Bytes
words_at data_at [] = []
words_at data_at (flag ∷ flags) =
    hex_word ((data_at flag * 256 + data_at (flag + 1)) % 65536) ++ words_at data_at flags

unfoldable pub IsBlock : ℕ → Block → Type 0
IsBlock n b =
    (b.offset < 2 ^ 32)
    × (b.cksum < 2 ^ 16)
    × (length b.payload < 2 ^ 16)
    × (length b.payload % 2 ≡ 0)
    × (check_sum b.payload ≡ b.cksum → b.offset + length b.payload ≤ n)

-- The sizes fit their fields, and the blocks with right checksums and the flags lie in the data.
unfoldable pub IsImage : Image → Type 0
IsImage image =
    (image.datasize < 2 ^ 32)
    × (length image.blocks < 2 ^ 16)
    × (length image.flags < 2 ^ 16)
    × All (IsBlock image.datasize) image.blocks
    × All (λ flag. (flag < 2 ^ 32) × (flag + 1 < image.datasize)) image.flags
