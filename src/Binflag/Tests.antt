-- ===== src/Binflag/Tests.antt =====
-- A run of lab2/lab2.c.
use inp.Common.{◌^◌, ◌<◌, ◌≡◌, refl, [], ◌∷◌, some, arith}
use inp.Common.Bytes.{text}
use inp.Binflag.{Memory, read_block, run_main, hex_word}
use inp.Binflag.Image.{
  Image, check_sum, encode, encode_block, contents, patched, words_at, IsBlock, IsImage,
}
use inp.Binflag.Flags.{run_main-encode}
use inp.Binflag.Damage.{damaged, read_block-damaged}

abbrev garbage : Memory
garbage i = 170

-- Two blocks that overlap, and one with a wrong checksum that points outside.
abbrev image : Image
image = record {
  datasize = 8;
  blocks =
      record { offset = 1; cksum = 0x0506; payload = 1 ∷ 2 ∷ 4 ∷ 4 ∷ [] }
      ∷ record { offset = 3; cksum = 0xabcd; payload = 0xab ∷ 0xcd ∷ [] }
      ∷ record { offset = 9; cksum = 1; payload = 7 ∷ 7 ∷ [] }
      ∷ [];
  flags = 2 ∷ 4 ∷ [];
}

image-IsImage : IsImage image
unfolding IsImage IsBlock check_sum
image-IsImage = (
  omega arith,
  omega arith,
  omega arith,
  (
    (omega arith, omega arith, omega arith, refl, λ h. omega arith),
    (
      (omega arith, omega arith, omega arith, refl, λ h. omega arith),
      ((omega arith, omega arith, omega arith, refl, λ h. ground arith), tt),
    ),
  ),
  ((omega arith, omega arith), ((omega arith, omega arith), tt)),
)

printed : words_at (contents (λ i. 0) image.blocks) image.flags ≡ text "02abcd00"
unfolding words_at contents patched check_sum hex_word text
printed = refl

run_main-encode_example :
    run_main garbage (λ i. garbage) garbage (encode image (text "end"))
    ≡ some (words_at (contents (λ i. 0) image.blocks) image.flags)
run_main-encode_example =
    run_main-encode garbage (λ i. garbage) garbage image (text "end") image-IsImage

sum_fits : check_sum (1 ∷ 2 ∷ 4 ∷ 4 ∷ []) < 2 ^ 16
unfolding check_sum
sum_fits = omega arith

read_block-damaged_example :
    read_block garbage record {
      stream = encode_block (damaged 1 (1 ∷ 2 ∷ 4 ∷ 4 ∷ []) (1 ∷ 2 ∷ 5 ∷ 4 ∷ [])) (text "next");
      dict = 0 ∷ 0 ∷ [];
    }
    ≡ some record { stream = text "next"; dict = 0 ∷ 0 ∷ [] }
read_block-damaged_example =
    read_block-damaged garbage 1 4 5 (1 ∷ 2 ∷ []) (4 ∷ []) (0 ∷ 0 ∷ []) (text "next")
      (λ h. ground arith) (omega arith) sum_fits (omega arith) refl
