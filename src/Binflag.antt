-- ===== src/Binflag.antt =====
-- lab2/lab2.c: the reader of a file of data blocks with checksums, which prints the words of the data
-- that the file's list of flags names.
pub mod Endian
pub mod Image
pub mod Blocks
pub mod Flags
pub mod Damage
mod Tests
use inp.Common.{
  ℕ, zero, suc, ◌+◌, ◌-◌, ◌*◌, ◌/◌, ◌%◌, Bool, true, false, List, [], ◌∷◌, ◌++◌, Option, none, some,
  ltb, leb, ◌==◌, if◌then◌else◌, length, get_or, take, drop, replicate,
}
use inp.Common.Bytes.{Bytes}
use inp.Common.Text.{replace}
use Prim.Native.Nat.{bit_xor}
use inp.Common.Fields.{field_u16, field_u32}

-- The masks and shifts: the bytes that they put together are disjoint, so `|` adds them.
unfoldable pub convert_indian_u16 : ℕ → ℕ
convert_indian_u16 num = num % 256 * 256 + num / 256 % 256

unfoldable pub convert_indian_u32 : ℕ → ℕ
convert_indian_u32 num =
    num % 256 * 16777216 + num / 256 % 256 * 65536 + num / 65536 % 256 * 256 + num / 16777216 % 256

unfoldable pub convert_indian_u64 : ℕ → ℕ
convert_indian_u64 num =
    num % 256 * 72057594037927936
    + num / 256 % 256 * 281474976710656
    + num / 65536 % 256 * 1099511627776
    + num / 16777216 % 256 * 4294967296
    + num / 4294967296 % 256 * 16777216
    + num / 1099511627776 % 256 * 65536
    + num / 281474976710656 % 256 * 256
    + num / 72057594037927936 % 256

-- What fresh memory holds.
abbrev pub Memory : Type 0
Memory = ℕ → ℕ

-- `read` into fresh memory from a place on: where the file ends, the memory keeps what it held.
unfoldable pub read_into : Memory → ℕ → ℕ → Bytes → Bytes
read_into memory at zero stream = []
read_into memory at (suc n) [] = memory at ∷ read_into memory (suc at) n []
read_into memory at (suc n) (c ∷ stream) = c ∷ read_into memory (suc at) n stream

-- The loop that makes `xored_val`; `beyond` stands behind a payload of odd length.
unfoldable pub xored : ℕ → Bytes → ℕ → ℕ
xored beyond [] xored_val = xored_val
xored beyond (a ∷ []) xored_val = bit_xor xored_val (a * 256 + beyond)
xored beyond (a ∷ b ∷ payload) xored_val = xored beyond payload (bit_xor xored_val (a * 256 + b))

-- `memcpy(dict + offset, payload, length)`: none if it leaves `dict`.
unfoldable pub copy_into : Bytes → ℕ → Bytes → Option Bytes
copy_into dict offset payload =
    if leb (offset + length payload) (length dict)
    then some (replace dict offset (length payload) payload)
    else none

-- The file from where it is read next, and `dict`.
pub record Reader : Type 0 where
  pub stream : Bytes
  pub dict : Bytes

abbrev pub with_stream : Bytes → Option Bytes → Option Reader
with_stream stream none = none
with_stream stream (some dict) = some record { stream = stream; dict = dict }

-- A turn of the loop over the blocks.
unfoldable pub read_block : Memory → Reader → Option Reader
read_block memory r =
    let head = read_into memory 0 8 r.stream in
    let block_length = convert_indian_u16 (field_u16 head 6) in
    let offset = convert_indian_u32 (field_u32 head 0) in
    let cksum = convert_indian_u16 (field_u16 head 4) in
    let payload = read_into memory 8 block_length (drop 8 r.stream) in
    let rest = drop block_length (drop 8 r.stream) in
    with_stream rest (
      if xored (memory (8 + block_length)) payload 0 == cksum
      then copy_into r.dict offset payload
      else some r.dict)

-- The loop, where each turn has memory of its own.
unfoldable pub read_blocks : (ℕ → Memory) → ℕ → Reader → Option Reader
read_blocks memory zero r = some r
read_blocks memory (suc n) r = elim (read_block (memory n) r) [
  | none ↦ none
  | some next ↦ read_blocks memory n next
]

-- The offsets of the flags, in the order of the host.
unfoldable pub offsets_of : ℕ → Bytes → List ℕ
offsets_of zero s = []
offsets_of (suc n) s = convert_indian_u32 (field_u32 s 0) ∷ offsets_of n (drop 4 s)

abbrev pub hex_char : ℕ → ℕ
hex_char d = if ltb d 10 then 48 + d else 87 + d

-- `printf("%04x", ans[i])`
unfoldable pub hex_word : ℕ → Bytes
hex_word v =
    hex_char (v / 4096 % 16)
    ∷ hex_char (v / 256 % 16)
    ∷ hex_char (v / 16 % 16)
    ∷ hex_char (v % 16)
    ∷ []

-- The loop that prints the flags: none if an offset leaves `dict`.
unfoldable pub print_flags : Bytes → List ℕ → Option Bytes
print_flags dict [] = some []
print_flags dict (offset ∷ offsets) =
    let word = (get_or dict offset 0 * 256 + get_or dict (offset + 1) 0) % 65536 in
    elim (print_flags dict offsets) [
      | none ↦ none
      | some printed ↦
          if ltb (offset + 1) (length dict) then some (hex_word word ++ printed) else none
    ]

-- From the list of flags on; `memset` has cleared `flag->offset`.
unfoldable pub read_flags : Memory → Reader → Option Bytes
read_flags memory r =
    let head = read_into memory 0 2 r.stream in
    let flags = convert_indian_u16 (field_u16 head 0) in
    print_flags r.dict (offsets_of flags (read_into (λ i. 0) 0 (4 * flags) (drop 2 r.stream)))

abbrev pub flags_after : Memory → Option Reader → Option Bytes
flags_after memory none = none
flags_after memory (some r) = read_flags memory r

-- `main` on the bytes of the file: what it prints, or none if it leaves `dict`.
unfoldable pub run_main : Memory → (ℕ → Memory) → Memory → Bytes → Option Bytes
run_main header_memory block_memory flag_memory bytes =
    let hdr = read_into header_memory 0 16 bytes in
    let n_blocks = convert_indian_u16 (field_u16 hdr 12) in
    let datasize = convert_indian_u32 (field_u32 hdr 8) in
    flags_after flag_memory (
      read_blocks block_memory n_blocks
        record { stream = drop 16 bytes; dict = replicate datasize 0 })
