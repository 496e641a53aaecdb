-- ===== src/Sean.antt =====
-- lab6/others/Sean: the codec of a chunk. The client writes each seventeen characters as a number in
-- base 96 and sends its fourteen bytes; the server takes the number apart again.
pub mod Codec
mod Tests
use inp.Common.{
  ℕ, zero, suc, ◌+◌, ◌-◌, ◌*◌, ◌/◌, ◌%◌, [], ◌∷◌, ◌++◌, ltb, leb, if◌then◌else◌, take, drop,
}
use inp.Common.Bytes.{Bytes}

infixl 6 ◌+ℤ◌
infixl 7 ◌*ℤ◌ ◌/ℤ◌ ◌%ℤ◌
-- `__int128`. The largest value that the client computes is below 96 ^ 17, which is below 2 ^ 112.
pub data ℤ : Type 0 where
  pos : ℕ → ℤ
  negsuc : ℕ → ℤ

-- `a - b`
unfoldable pub difference : ℕ → ℕ → ℤ
difference a b = if leb b a then pos (a - b) else negsuc (b - a - 1)

unfoldable pub ◌+ℤ◌ : ℤ → ℤ → ℤ
◌+ℤ◌ (pos a) (pos b) = pos (a + b)
◌+ℤ◌ (pos a) (negsuc b) = difference a (suc b)
◌+ℤ◌ (negsuc a) (pos b) = difference b (suc a)
◌+ℤ◌ (negsuc a) (negsuc b) = negsuc (suc (a + b))

unfoldable pub ◌*ℤ◌ : ℤ → ℕ → ℤ
◌*ℤ◌ (pos a) n = pos (a * n)
◌*ℤ◌ (negsuc a) n = difference 0 (suc a * n)

-- `/` and `%` round towards zero.
unfoldable pub ◌/ℤ◌ : ℤ → ℕ → ℤ
◌/ℤ◌ (pos a) n = pos (a / n)
◌/ℤ◌ (negsuc a) n = difference 0 (suc a / n)

unfoldable pub ◌%ℤ◌ : ℤ → ℕ → ℤ
◌%ℤ◌ (pos a) n = pos (a % n)
◌%ℤ◌ (negsuc a) n = difference 0 (suc a % n)

-- A byte of the `char` array, which is signed, and the conversion to `unsigned char`.
unfoldable pub char_of : ℕ → ℤ
char_of c = if ltb c 128 then pos c else negsuc (255 - c)

unfoldable pub byte_of : ℤ → ℕ
byte_of (pos a) = a % 256
byte_of (negsuc a) = 255 - a % 256

-- `(buf_file[...] - 0x20) % 96`
unfoldable pub digit : ℕ → ℤ
digit c = (char_of c +ℤ negsuc 31) %ℤ 96

unfoldable pub conv_of : ℤ → Bytes → ℤ
conv_of conv [] = conv
conv_of conv (c ∷ cs) = conv_of (conv *ℤ 96 +ℤ digit c) cs

-- The loop fills the bytes from the last one on: `acc` is what it has written.
unfoldable pub content_of : ℕ → ℤ → Bytes → Bytes
content_of zero conv acc = acc
content_of (suc left) conv acc = content_of left (conv /ℤ 256) (byte_of (conv %ℤ 256) ∷ acc)

unfoldable pub compress_group : Bytes → Bytes
compress_group group = content_of 14 (conv_of (pos 0) group) []

-- The groups of a chunk, as many as are asked for.
unfoldable pub compress_groups : ℕ → Bytes → Bytes
compress_groups zero buf = []
compress_groups (suc groups) buf =
    compress_group (take 17 buf) ++ compress_groups groups (drop 17 buf)

-- The server: the bytes are unsigned, so that the number is not negative.
unfoldable pub number_of : ℕ → Bytes → ℕ
number_of conv [] = conv
number_of conv (b ∷ bs) = number_of (conv * 256 + b) bs

unfoldable pub chars_of : ℕ → ℕ → Bytes → Bytes
chars_of zero conv acc = acc
chars_of (suc left) conv acc = chars_of left (conv / 96) ((conv % 96 + 32) ∷ acc)

unfoldable pub decompress_group : Bytes → Bytes
decompress_group group = chars_of 17 (number_of 0 group) []

unfoldable pub decompress_groups : ℕ → Bytes → Bytes
decompress_groups zero content = []
decompress_groups (suc groups) content =
    decompress_group (take 14 content) ++ decompress_groups groups (drop 14 content)

-- `CHUNK_PKT`, `CHUNK_BUF` and the groups of a chunk
abbrev pub chunk_pkt : ℕ
chunk_pkt = 1500 - 28 - 2

abbrev pub chunk_buf : ℕ
chunk_buf = chunk_pkt / 14 * 17

-- `rup[k].content` of the chunk of `buf_file`, and the chunk that the server writes for it
unfoldable pub compress_chunk : Bytes → Bytes
compress_chunk chunk = compress_groups (chunk_pkt / 14) chunk

unfoldable pub decompress_chunk : Bytes → Bytes
decompress_chunk content = decompress_groups (chunk_pkt / 14) content
