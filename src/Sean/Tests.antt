-- ===== src/Sean/Tests.antt =====
-- Runs of the codec of lab6/others/Sean.
use inp.Common.{ℕ, zero, suc, ◌≡◌, ◌≢◌, refl, ◌∷◌, length, replicate, All, arith}
use inp.Common.Bytes.{Bytes, text}
use inp.Sean.{
  difference, ◌+ℤ◌, ◌*ℤ◌, ◌/ℤ◌, ◌%ℤ◌, char_of, byte_of, digit, conv_of, content_of, compress_group,
  number_of, chars_of, decompress_group, chunk_buf, compress_chunk, decompress_chunk,
}
use inp.Sean.Codec.{IsPrintable, decompress_chunk-compress_chunk}

group_back : decompress_group (compress_group (text "Hello, formality!")) ≡ text "Hello, formality!"
unfolding decompress_group compress_group text difference ◌+ℤ◌ ◌*ℤ◌ ◌/ℤ◌ ◌%ℤ◌ char_of byte_of digit
    conv_of content_of number_of chars_of
group_back = refl

-- The number of a group that starts with a line end is negative, and its bytes are of no use.
line_end_lost :
    decompress_group (compress_group (text "\nello, formality!")) ≢ text "\nello, formality!"
unfolding decompress_group compress_group text difference ◌+ℤ◌ ◌*ℤ◌ ◌/ℤ◌ ◌%ℤ◌ char_of byte_of digit
    conv_of content_of number_of chars_of
line_end_lost = ground arith

All-replicate : (n c : ℕ) → IsPrintable c → All IsPrintable (replicate n c)
All-replicate zero c h = tt
All-replicate (suc n) c h = (h, All-replicate n c h)

abbrev letter : ℕ
letter = 105

abbrev chunk : Bytes
chunk = 72 ∷ replicate 1784 letter

printable : IsPrintable 72 × IsPrintable 105
unfolding IsPrintable
printable = ((omega arith, omega arith), (omega arith, omega arith))

chunk-length : length chunk ≡ chunk_buf
chunk-length = refl

decompress_chunk-compress_chunk_example : decompress_chunk (compress_chunk chunk) ≡ chunk
decompress_chunk-compress_chunk_example =
    decompress_chunk-compress_chunk chunk chunk-length
      (printable.0, All-replicate 1784 105 printable.1)
