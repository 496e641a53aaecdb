-- ===== src/Otp.antt =====
-- The extraction of the one-time password in lab4/lab4.cpp and lab4/lab4_internal.cpp. A read behind
-- the buffer is undefined in the program: the model matches nothing there, and has no result when the
-- copying loop leaves the buffer.
pub mod Extract
mod Tests
use inp.Common.{
  ℕ, zero, suc, Bool, true, false, ◌&&◌, List, [], ◌∷◌, ◌++◌, Option, none, some, ◌==◌,
  if◌then◌else◌,
}
use inp.Common.Bytes.{Bytes}

-- `buffer[i] == '1' && buffer[i + 1] == '1' && buffer[i + 2] == '0' && buffer[i + 3] == '5'`
unfoldable pub starts : Bytes → Bool
starts (a ∷ b ∷ c ∷ d ∷ rest) = a == b'1' && (b == b'1' && (c == b'0' && d == b'5'))
starts (a ∷ b ∷ c ∷ []) = false
starts (a ∷ b ∷ []) = false
starts (a ∷ []) = false
starts [] = false

-- The `while` loop: what it appends to `verify`.
unfoldable pub copy_verify : Bytes → Option Bytes
copy_verify [] = none
copy_verify (c ∷ cs) = elim (c == b'=') [
  | true ↦ some []
  | false ↦ elim (copy_verify cs) [ none ↦ none | some verify ↦ some (c ∷ verify) ]
]

-- The `for` loop over the buffer from a place on.
unfoldable pub extract : Bytes → Option Bytes
unfolding starts copy_verify
extract [] = some []
extract (c ∷ cs) = elim (starts (c ∷ cs)) [
  | false ↦ extract cs
  | true ↦ elim (copy_verify (c ∷ cs)) [
    | none ↦ none
    | some verify ↦ some (verify ++ b'=' ∷ b'=' ∷ [])
  ]
]
