-- ===== src/Binflag/Endian.antt =====
-- The byte orders of lab2/lab2.c.
use inp.Common.{ℕ, ◌/◌, ◌%◌, ◌^◌, ◌<◌, ◌≡◌, [], ◌∷◌, arith}
use inp.Common.Bytes.{Bytes}
use inp.Binflag.{convert_indian_u16, convert_indian_u32, convert_indian_u64}

-- Big-endian numbers.
unfoldable pub big_u16 : ℕ → Bytes
big_u16 n = n / 256 ∷ n % 256 ∷ []

unfoldable pub big_u32 : ℕ → Bytes
big_u32 n = n / 16777216 ∷ n / 65536 % 256 ∷ n / 256 % 256 ∷ n % 256 ∷ []

-- Turning the bytes of a number around twice gives it back, for each of the three widths.
pub convert_indian-twice :
    (n : ℕ)
    → (n < 2 ^ 16 → convert_indian_u16 (convert_indian_u16 n) ≡ n)
      × (n < 2 ^ 32 → convert_indian_u32 (convert_indian_u32 n) ≡ n)
      × (n < 2 ^ 64 → convert_indian_u64 (convert_indian_u64 n) ≡ n)
unfolding convert_indian_u16 convert_indian_u32 convert_indian_u64
convert_indian-twice n = (λ h. omega arith, λ h. omega arith, λ h. omega arith)
