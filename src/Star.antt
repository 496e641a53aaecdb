-- ===== src/Star.antt =====
-- lab6/others/Star/src: a team's transfer of many files in one compressed stream, cut into chunks that
-- are sent again until the server has them. This module has the client.
pub mod Server
pub mod Pack
pub mod Entries
pub mod Assemble
pub mod Deliver
pub mod Saved
pub mod Complete
pub mod Delivered
pub mod Bits
pub mod Acks
pub mod Rounds
mod Tests
use inp.Common.{
  ℕ, zero, suc, ◌+◌, ◌-◌, ◌*◌, ◌/◌, ◌%◌, ◌^◌, Bool, true, false, List, [], ◌∷◌, ◌++◌, Option, none,
  some, ltb, ◌==◌, if◌then◌else◌, length, get_or, take, drop, replicate,
}
use inp.Common.Bytes.{Bytes}
use inp.Common.Maps.{Map, erase}

-- `DATA_SIZE` and `UINT32_MAX`
abbrev pub chunk_size : ℕ
chunk_size = 1168

abbrev pub uint_max : ℕ
uint_max = 4294967295

-- `hdr_t`, without a checksum as `USE_CHECKSUM` is not defined.
pub record Packet : Type 0 where
  pub data_seq : ℕ
  pub contents : Bytes

-- A `uint32_t` in memory.
unfoldable pub bytes_u32 : ℕ → Bytes
bytes_u32 n = n % 256 ∷ n / 256 % 256 ∷ n / 65536 % 256 ∷ n / 16777216 % 256 ∷ []

-- The loop that fills `orig_data`: an `init_t` and the data of each file, numbered from `idx` on.
unfoldable pub pack : ℕ → List Bytes → Bytes
pack idx [] = []
pack idx (data_of ∷ files) =
    bytes_u32 idx ++ (bytes_u32 (length data_of) ++ (data_of ++ pack (suc idx) files))

-- `data_t zero`: the size in eight bytes, and a pointer that is `NULL`.
unfoldable pub zero_chunk : ℕ → Bytes
zero_chunk comp_size = bytes_u32 comp_size ++ replicate 12 0

-- The loop that cuts `comp_data`.
unfoldable pub chunks_from : ℕ → ℕ → Bytes → Map Bytes
chunks_from zero i comp_data = []
chunks_from (suc fuel) i comp_data =
    let rest = chunks_from fuel (suc i) comp_data in
    if ltb (i * chunk_size) (length comp_data)
    then (suc i, take chunk_size (drop (i * chunk_size) comp_data)) ∷ rest
    else []

unfoldable pub data_map_of : Bytes → Map Bytes
data_map_of comp_data =
    (0, zero_chunk (length comp_data)) ∷ chunks_from (length comp_data) 0 comp_data

-- `bzero` and `memcpy` of `wrap_send`.
unfoldable pub padded : Bytes → Bytes
padded buf = buf ++ replicate (chunk_size - length buf) 0

unfoldable pub wrap_send : ℕ → Bytes → Packet
wrap_send data_seq buf = record { data_seq = data_seq; contents = padded buf }

-- `(*(std::bitset *)bits)[i]`
unfoldable pub bit_at : Bytes → ℕ → Bool
bit_at bits i = get_or bits (i / 8) 0 / 2 ^ (i % 8) % 2 == 1

-- The loop of `main` that sends what is not done.
unfoldable pub send_round : Bytes → Map Bytes → List Packet
send_round donebit [] = []
send_round donebit ((key, chunk) ∷ data_map) =
    let rest = send_round donebit data_map in
    if bit_at donebit key then rest else wrap_send key chunk ∷ rest

-- `read_resps` on what `recv` gives: none where it exits at the server's FIN.
unfoldable pub read_resps : Bytes → List Packet → Option Bytes
read_resps donebit [] = some donebit
read_resps donebit (res ∷ responses) =
    let rest = read_resps res.contents responses in if res.data_seq == uint_max then none else rest

-- The loop that erases what is done, from `i` on.
unfoldable pub erase_done : ℕ → ℕ → Bytes → Map Bytes → Map Bytes
erase_done zero i donebit data_map = data_map
erase_done (suc left) i donebit data_map =
    erase_done left (suc i) donebit (if bit_at donebit i then erase i data_map else data_map)

-- The next turn, unless the client has exited.
abbrev pub next_turn : (Bytes → List Packet) → Option Bytes → List Packet
next_turn f none = []
next_turn f (some donebit) = f donebit

-- The `while` loop on what `recv` gives in each turn: the packets that it sends.
unfoldable pub transmit : List (List Packet) → Bytes → Map Bytes → List Packet
transmit [] donebit data_map = []
transmit (responses ∷ turns) donebit [] = []
transmit (responses ∷ turns) donebit (entry ∷ data_map) =
    send_round donebit (entry ∷ data_map)
    ++ next_turn
        (λ bits. transmit turns bits (erase_done (chunk_size * 8) 0 bits (entry ∷ data_map)))
        (read_resps donebit responses)

-- The client's loop on a compressed stream; `s_res` starts with no bit set.
unfoldable pub client : List (List Packet) → Bytes → List Packet
client turns comp_data = transmit turns (replicate chunk_size 0) (data_map_of comp_data)
