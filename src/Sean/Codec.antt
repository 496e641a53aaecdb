-- ===== src/Sean/Codec.antt =====
-- What the server makes of a chunk that the client of lab6/others/Sean has compressed.
use inp.Common.{
  ℕ, zero, suc, ◌+◌, ◌-◌, ◌*◌, ◌/◌, ◌%◌, ◌^◌, ◌≤◌, ◌<◌, ◌≡◌, refl, sym, ap, ◌∙◌, [], ◌∷◌, ◌++◌,
  length, length-take, length-drop, take, drop, take-append, drop-append, take-append-drop,
  append_nil, subst, All, arith,
}
use inp.Common.Bytes.{Bytes}
use native.Mathlib.Nat.{mul_assoc, pow-succ'}
use inp.Sean.{
  pos, difference, ◌+ℤ◌, ◌*ℤ◌, ◌/ℤ◌, ◌%ℤ◌, char_of, byte_of, digit, conv_of, content_of,
  compress_group, compress_groups, number_of, chars_of, decompress_group, decompress_groups,
  chunk_pkt, chunk_buf, compress_chunk, decompress_chunk,
}

-- The characters that the codec is for.
unfoldable pub IsPrintable : ℕ → Type 0
IsPrintable c = (32 ≤ c) × (c < 128)

-- The number of a group of them.
unfoldable value_of : ℕ → Bytes → ℕ
value_of conv [] = conv
value_of conv (c ∷ cs) = value_of (conv * 96 + (c - 32)) cs

digit_printable : (c : ℕ) → IsPrintable c → digit c ≡ pos (c - 32)
unfolding digit char_of difference ◌+ℤ◌ ◌%ℤ◌ IsPrintable
digit_printable c h = ground (arith, h)

conv_of_printable :
    (conv : ℕ) (cs : Bytes) → All IsPrintable cs → conv_of (pos conv) cs ≡ pos (value_of conv cs)
unfolding conv_of value_of ◌+ℤ◌ ◌*ℤ◌
conv_of_printable conv [] h = refl
conv_of_printable conv (c ∷ cs) h =
    rw (digit_printable c h.0) (conv_of_printable (conv * 96 + (c - 32)) cs h.1)

value_of_lt :
    (conv bound : ℕ) (cs : Bytes)
    → All IsPrintable cs
    → conv < bound
    → value_of conv cs < bound * 96 ^ length cs
unfolding value_of IsPrintable
value_of_lt conv bound [] h below = omega (arith, below)
value_of_lt conv bound (c ∷ cs) h below =
    let rest = value_of_lt (conv * 96 + (c - 32)) (bound * 96) cs h.1 (omega arith) in
    let power : 96 ^ suc (length cs) ≡ 96 * 96 ^ length cs = pow-succ' 96 (length cs) in
    rw (power, sym (mul_assoc bound 96 (96 ^ length cs))) rest

chars_of-value_of :
    (left conv : ℕ) (cs acc : Bytes)
    → All IsPrintable cs
    → chars_of (length cs + left) (value_of conv cs) acc ≡ chars_of left conv (cs ++ acc)
unfolding chars_of value_of IsPrintable
chars_of-value_of left conv [] acc h = let count : 0 + left ≡ left = omega arith in rw count refl
chars_of-value_of left conv (c ∷ cs) acc h =
    let next = conv * 96 + (c - 32) in
    let count : suc (length cs) + left ≡ length cs + suc left = omega arith in
    let quotient : next / 96 ≡ conv = omega (arith, h.0) in
    let remainder : next % 96 + 32 ≡ c = omega (arith, h.0) in
    let rest : chars_of (length cs + suc left) (value_of next cs) acc
        ≡ chars_of left (next / 96) ((next % 96 + 32) ∷ cs ++ acc) =
      chars_of-value_of (suc left) next cs acc h.1 in
    rw count (rest ∙ rw (quotient, remainder) refl)

number_of-content_of :
    (left conv : ℕ) (acc : Bytes)
    → conv < 256 ^ left
    → number_of 0 (content_of left (pos conv) acc) ≡ number_of conv acc
unfolding number_of content_of byte_of ◌/ℤ◌ ◌%ℤ◌
number_of-content_of zero conv acc h = let none_left : conv ≡ 0 = omega arith in rw none_left refl
number_of-content_of (suc left) conv acc h =
    let power : 256 ^ suc left ≡ 256 * 256 ^ left = pow-succ' 256 left in
    let below : conv / 256 < 256 ^ left = omega (arith, power, h) in
    let again : conv / 256 * 256 + conv % 256 % 256 ≡ conv = omega arith in
    number_of-content_of left (conv / 256) (conv % 256 % 256 ∷ acc) below
    ∙ ap (λ n. number_of n acc) again

length-content_of :
    (left conv : ℕ) (acc : Bytes) → length (content_of left (pos conv) acc) ≡ left + length acc
unfolding content_of byte_of ◌/ℤ◌ ◌%ℤ◌
length-content_of zero conv acc = omega arith
length-content_of (suc left) conv acc =
    let rest = length-content_of left (conv / 256) (conv % 256 % 256 ∷ acc) in omega (arith, rest)

decompress_group-compress_group :
    (group : Bytes)
    → length group ≡ 17
    → All IsPrintable group
    → (decompress_group (compress_group group) ≡ group) × (length (compress_group group) ≡ 14)
unfolding decompress_group compress_group number_of chars_of
decompress_group-compress_group group len h =
    let value = value_of 0 group in
    let bound : value < 1 * 96 ^ 17 =
      subst (λ n. value < 1 * 96 ^ n) len (value_of_lt 0 1 group h (omega arith)) in
    let below : value < 256 ^ 14 = omega (arith, bound) in
    let number : number_of 0 (content_of 14 (pos value) []) ≡ value =
      number_of-content_of 14 value [] below in
    let count : length group + 0 ≡ 17 = omega (arith, len) in
    let chars : chars_of 17 value [] ≡ group =
      subst (λ n. chars_of n value [] ≡ group) count
        (chars_of-value_of 0 0 group [] h ∙ append_nil group) in
    rw (conv_of_printable 0 group h) (rw number chars, length-content_of 14 value [] ∙ omega arith)

All-split :
    (n : ℕ) (xs : Bytes)
    → All IsPrintable xs
    → All IsPrintable (take n xs) × All IsPrintable (drop n xs)
All-split zero xs h = (tt, h)
All-split (suc n) [] h = (tt, tt)
All-split (suc n) (x ∷ xs) h = let rest = All-split n xs h.1 in ((h.0, rest.0), rest.1)

decompress_groups-compress_groups :
    (groups : ℕ) (chunk : Bytes)
    → length chunk ≡ groups * 17
    → All IsPrintable chunk
    → decompress_groups groups (compress_groups groups chunk) ≡ chunk
unfolding decompress_groups compress_groups
decompress_groups-compress_groups zero [] len h = refl
decompress_groups-compress_groups zero (c ∷ cs) len h = absurd (omega (arith, len))
decompress_groups-compress_groups (suc groups) chunk len h =
    let parts = All-split 17 chunk h in
    let content = compress_group (take 17 chunk) in
    let others = compress_groups groups (drop 17 chunk) in
    let group =
      decompress_group-compress_group (take 17 chunk) (length-take 17 chunk ∙ omega (arith, len))
        parts.0 in
    let first : take 14 (content ++ others) ≡ content =
      subst (λ n. take n (content ++ others) ≡ content) group.1 (take-append content others) in
    let rest : drop 14 (content ++ others) ≡ others =
      subst (λ n. drop n (content ++ others) ≡ others) group.1 (drop-append content others) in
    let ih =
      decompress_groups-compress_groups groups (drop 17 chunk)
        (length-drop 17 chunk ∙ omega (arith, len)) parts.1 in
    rw (first, rest, group.0, ih) (take-append-drop 17 chunk)

-- The server writes the chunk that the client had, when the chunk is full and holds characters from
-- the blank to the byte 127 only.
pub decompress_chunk-compress_chunk :
    (chunk : Bytes)
    → length chunk ≡ chunk_buf
    → All IsPrintable chunk
    → decompress_chunk (compress_chunk chunk) ≡ chunk
unfolding decompress_chunk compress_chunk
decompress_chunk-compress_chunk chunk len h =
    decompress_groups-compress_groups (chunk_pkt / 14) chunk len h
