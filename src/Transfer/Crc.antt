-- ===== src/Transfer/Crc.antt =====
-- `calculateCRC` of lab6/src/header.hpp: it stays a `uint16_t`, and no step of it loses anything, so
-- that one wrong byte is always found.
use Prim.Native.Nat.{bit_xor}
use inp.Common.{
  ℕ, zero, suc, ◌+◌, ◌/◌, ◌%◌, ◌^◌, ◌<◌, ◌≡◌, ◌≢◌, refl, sym, ◌∙◌, [], ◌∷◌, ◌++◌, arith, ◌==◌,
  if◌then◌else◌, All,
}
use inp.Common.Bytes.{Bytes}
use inp.Common.Xor.{bit_xor_cancel, bit_xor_lt, bit_xor_top, bit_xor_comm}
use inp.Transfer.{crc_bits, calculate_crc}

abbrev pub IsByte : ℕ → Type 0
IsByte b = b < 256

abbrev pub Word : ℕ → Type 0
Word n = n < 2 ^ 16

abbrev crc_bit : ℕ → ℕ
crc_bit crc = if crc % 2 == 1 then bit_xor (crc / 2) 0xa001 else crc / 2

-- An odd register gets its highest digit set.
crc_bit_odd : (crc : ℕ) → Word crc → bit_xor (crc / 2) 0xa001 ≡ 2 ^ 15 + bit_xor (crc / 2) 0x2001
crc_bit_odd crc h = bit_xor_top 15 (crc / 2) 0x2001 (omega arith) (omega arith)

crc_bit-Word : (crc : ℕ) → Word crc → Word (crc_bit crc)
crc_bit-Word crc h = ground (arith, bit_xor_lt 16 (crc / 2) 0xa001)

crc_bit_cancel : (a b : ℕ) → Word a → Word b → crc_bit a ≡ crc_bit b → a ≡ b
crc_bit_cancel a b p q e =
    ground (arith, crc_bit_odd a p, crc_bit_odd b q, bit_xor_cancel (a / 2) (b / 2) 0xa001)

crc_bits-Word : (n crc : ℕ) → Word crc → Word (crc_bits n crc)
unfolding crc_bits
crc_bits-Word zero crc h = h
crc_bits-Word (suc n) crc h = crc_bits-Word n (crc_bit crc) (crc_bit-Word crc h)

crc_bits_cancel : (n a b : ℕ) → Word a → Word b → crc_bits n a ≡ crc_bits n b → a ≡ b
unfolding crc_bits
crc_bits_cancel zero a b p q e = e
crc_bits_cancel (suc n) a b p q e =
    crc_bit_cancel a b p q
      (crc_bits_cancel n (crc_bit a) (crc_bit b) (crc_bit-Word a p) (crc_bit-Word b q) e)

byte-Word : (crc b : ℕ) → Word crc → IsByte b → Word (bit_xor crc b)
byte-Word crc b h k = bit_xor_lt 16 crc b h (omega arith)

pub calculate_crc-Word :
    (bytes : Bytes) (crc : ℕ) → All IsByte bytes → Word crc → Word (calculate_crc bytes crc)
unfolding calculate_crc
calculate_crc-Word [] crc hs h = h
calculate_crc-Word (b ∷ bytes) crc (k, ks) h =
    calculate_crc-Word bytes (crc_bits 8 (bit_xor crc b)) ks
      (crc_bits-Word 8 (bit_xor crc b) (byte-Word crc b h k))

-- `calculateCRC` of a text in two pieces: the second starts from the first's.
pub calculate_crc-append :
    (xs ys : Bytes) (crc : ℕ)
    → calculate_crc (xs ++ ys) crc ≡ calculate_crc ys (calculate_crc xs crc)
unfolding calculate_crc
calculate_crc-append [] ys crc = refl
calculate_crc-append (x ∷ xs) ys crc = calculate_crc-append xs ys (crc_bits 8 (bit_xor crc x))

-- Different registers stay different.
pub calculate_crc_cancel :
    (bytes : Bytes) (a b : ℕ)
    → All IsByte bytes
    → Word a
    → Word b
    → calculate_crc bytes a ≡ calculate_crc bytes b
    → a ≡ b
unfolding calculate_crc
calculate_crc_cancel [] a b hs p q e = e
calculate_crc_cancel (x ∷ bytes) a b (k, ks) p q e = bit_xor_cancel a b x (
    crc_bits_cancel 8 (bit_xor a x) (bit_xor b x) (byte-Word a x p k) (byte-Word b x q k) (
      calculate_crc_cancel bytes (crc_bits 8 (bit_xor a x)) (crc_bits 8 (bit_xor b x)) ks
        (crc_bits-Word 8 (bit_xor a x) (byte-Word a x p k))
        (crc_bits-Word 8 (bit_xor b x) (byte-Word b x q k)) e))

xor_byte_cancel : (crc a b : ℕ) → bit_xor crc a ≡ bit_xor crc b → a ≡ b
xor_byte_cancel crc a b e = bit_xor_cancel a b crc (
    bit_xor_comm (a + crc) a crc (omega arith) (omega arith)
    ∙ (e ∙ bit_xor_comm (b + crc) crc b (omega arith) (omega arith)))

-- Two texts of bytes that differ in one byte, at any place, have different checksums, from whatever
-- `uint16_t` the checksum starts.
pub calculate_crc_one_byte :
    (xs ys : Bytes) (a b crc : ℕ)
    → All IsByte xs
    → All IsByte ys
    → IsByte a
    → IsByte b
    → Word crc
    → a ≢ b
    → calculate_crc (xs ++ a ∷ ys) crc ≢ calculate_crc (xs ++ b ∷ ys) crc
unfolding calculate_crc
calculate_crc_one_byte xs ys a b crc hx hy ha hb h different e =
    let r = calculate_crc xs crc in
    let w = calculate_crc-Word xs crc hx h in
    let wa = byte-Word r a w ha in
    let wb = byte-Word r b w hb in
    let tail =
      sym (calculate_crc-append xs (a ∷ ys) crc) ∙ (e ∙ calculate_crc-append xs (b ∷ ys) crc) in
    different (
      xor_byte_cancel r a b (
        crc_bits_cancel 8 (bit_xor r a) (bit_xor r b) wa wb (
          calculate_crc_cancel ys (crc_bits 8 (bit_xor r a)) (crc_bits 8 (bit_xor r b)) hy
            (crc_bits-Word 8 (bit_xor r a) wa) (crc_bits-Word 8 (bit_xor r b) wb) tail)))
