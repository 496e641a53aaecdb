-- ===== src/Star/Pack.antt =====
-- lab6/others/Star/src: the stream that client.cpp packs and server.cpp unpacks.
use inp.Common.{
  ℕ, zero, suc, ◌+◌, ◌*◌, ◌/◌, ◌%◌, ◌^◌, ◌≤◌, ◌<◌, ◌≡◌, refl, ap, ◌∙◌, false, List, [], ◌∷◌, ◌++◌,
  some, ltb, ◌==◌, length, All, length-append, take-append, drop-append, arith,
}
use inp.Common.Bytes.{Bytes}
use inp.Common.Fields.{field_u32}
use inp.Star.{bytes_u32, pack}
use inp.Star.Server.{unpack, add_file}

pub field_u32-bytes_u32 :
    (n : ℕ) (rest : Bytes) → n < 2 ^ 32 → field_u32 (bytes_u32 n ++ rest) 0 ≡ n
unfolding field_u32 bytes_u32
field_u32-bytes_u32 n rest h = omega arith

-- The files with their numbers.
abbrev pub numbered : ℕ → List Bytes → List (ℕ × Bytes)
numbered idx [] = []
numbered idx (file ∷ files) = (idx, file) ∷ numbered (suc idx) files

u32_lem :
    (n : ℕ)
    → n < 2 ^ 32
    → n % 256 + n / 256 % 256 * 256 + n / 65536 % 256 * 65536 + n / 16777216 % 256 * 16777216 ≡ n
u32_lem n h = omega arith

unpack_nil : (fuel : ℕ) → unpack fuel [] ≡ some []
unfolding unpack
unpack_nil zero = refl
unpack_nil (suc fuel) = refl

-- What the server needs in order to read a file's head.
pub unpack_step :
    (fuel idx : ℕ) (file rest : Bytes)
    → idx < 2 ^ 32
    → length file < 2 ^ 32
    → unpack (suc fuel) (bytes_u32 idx ++ (bytes_u32 (length file) ++ (file ++ rest)))
      ≡ add_file (idx, file) (unpack fuel rest)
unfolding unpack bytes_u32 field_u32
unpack_step fuel idx file rest small fits =
    let whole = length (file ++ rest) in
    let some_left : (suc (suc (suc (suc (suc (suc (suc (suc whole))))))) == 0) ≡ false =
      ground arith in
    let head_left : ltb (suc (suc (suc (suc (suc (suc (suc (suc whole)))))))) 8 ≡ false =
      ground arith in
    let data_left : ltb whole (length file) ≡ false = ground (arith, length-append file rest) in
    rw
      (
        u32_lem idx small,
        u32_lem (length file) fits,
        some_left,
        head_left,
        data_left,
        take-append file rest,
        drop-append file rest,
      )
      refl

-- The server unpacks the files that the client has packed, with their numbers.
pub unpack-pack :
    (fuel idx : ℕ) (files : List Bytes)
    → length files ≤ fuel
    → idx + length files < 2 ^ 32
    → All (λ file. length file < 2 ^ 32) files
    → unpack fuel (pack idx files) ≡ some (numbered idx files)
unfolding pack
unpack-pack zero idx [] h k fit = unpack_nil zero
unpack-pack (suc fuel) idx [] h k fit = unpack_nil (suc fuel)
unpack-pack zero idx (file ∷ files) h k fit = absurd (omega arith)
unpack-pack (suc fuel) idx (file ∷ files) h k fit =
    unpack_step fuel idx file (pack (suc idx) files) (omega arith) fit.0
    ∙ ap (add_file (idx, file)) (unpack-pack fuel (suc idx) files (omega arith) (omega arith) fit.1)
