-- ===== src/Binflag/Damage.antt =====
-- The checksum of a block of lab2/lab2.c.
use inp.Common.{
  ℕ, ◌+◌, ◌*◌, ◌%◌, ◌^◌, ◌<◌, ◌≡◌, ◌≢◌, refl, ◌∙◌, inl, inr, [], ◌∷◌, ◌++◌, some, ◌==◌, Bool-cases,
  length, arith,
}
use inp.Common.Bytes.{Bytes}
use Prim.Native.Nat.{bit_xor}
use inp.Common.Xor.{bit_xor_comm, bit_xor_cancel}
use inp.Binflag.{Memory, read_block}
use inp.Binflag.Image.{Block, check_sum, encode_block}
use inp.Binflag.Blocks.{read_block_parts}

left_cancel : (k a b : ℕ) → bit_xor k a ≡ bit_xor k b → a ≡ b
left_cancel k a b e = bit_xor_cancel a b k (
    bit_xor_comm (a + k) a k (omega arith) (omega arith)
    ∙ (e ∙ bit_xor_comm (k + b) k b (omega arith) (omega arith)))

check_sum_changed :
    (xs ys : Bytes) (a b : ℕ) → check_sum (xs ++ a ∷ ys) ≡ check_sum (xs ++ b ∷ ys) → a ≡ b
unfolding check_sum
check_sum_changed [] [] a b e = omega arith
check_sum_changed [] (c ∷ ys) a b e =
    omega (arith, bit_xor_cancel (a * 256 + c) (b * 256 + c) (check_sum ys) e)
check_sum_changed (x ∷ []) ys a b e =
    omega (arith, bit_xor_cancel (x * 256 + a) (x * 256 + b) (check_sum ys) e)
check_sum_changed (x ∷ y ∷ xs) ys a b e =
    check_sum_changed xs ys a b (left_cancel (x * 256 + y) _ _ e)

-- A block made for one payload that has come with another.
abbrev pub damaged : ℕ → Bytes → Bytes → Block
damaged offset made come = record { offset = offset; cksum = check_sum made; payload = come }

-- A block of which one byte of the payload has been changed since its checksum was made is passed
-- over, and the next block is read.
pub read_block-damaged :
    (memory : Memory) (offset a b : ℕ) (xs ys dict rest : Bytes)
    → a ≢ b
    → offset < 2 ^ 32
    → check_sum (xs ++ a ∷ ys) < 2 ^ 16
    → length (xs ++ b ∷ ys) < 2 ^ 16
    → length (xs ++ b ∷ ys) % 2 ≡ 0
    → read_block memory record {
      stream = encode_block (damaged offset (xs ++ a ∷ ys) (xs ++ b ∷ ys)) rest;
      dict = dict;
    }
      ≡ some record { stream = rest; dict = dict }
read_block-damaged memory offset a b xs ys dict rest changed offset_fits sum_fits length_fits even =
    let block = damaged offset (xs ++ a ∷ ys) (xs ++ b ∷ ys) in
    let parts = read_block_parts memory block dict rest offset_fits sum_fits length_fits even in
    elim (Bool-cases (check_sum (xs ++ b ∷ ys) == check_sum (xs ++ a ∷ ys))) [
      | inl same ↦ absurd (changed (check_sum_changed xs ys a b (ground (arith, same))))
      | inr wrong ↦ rw (parts, wrong) refl
    ]
