-- ===== src/Star/Server.antt =====
-- lab6/others/Star/src/server.cpp. A `bitset` in a packet is its bytes.
use inp.Common.{
  ℕ, zero, suc, ◌+◌, ◌-◌, ◌*◌, ◌/◌, ◌%◌, ◌^◌, Bool, ◌||◌, List, [], ◌∷◌, Option, none, some, ltb,
  leb, ◌==◌, if◌then◌else◌, length, get_or, set, take, drop, replicate,
}
use inp.Common.Bytes.{Bytes}
use inp.Common.Fields.{field_u32}
use inp.Common.Text.{replace}
use inp.Common.Maps.{Map, lookup, insert}
use inp.Star.{chunk_size, uint_max, Packet, bit_at}

-- The variables of `main`; `recvbit` is the data of `send_hdr`.
pub record Server : Type 0 where
  pub comp_size : ℕ
  pub recv_size : ℕ
  pub data_map : Map Bytes
  pub recvbit : Bytes

abbrev pub start : Server
start = record {
  comp_size = uint_max;
  recv_size = 0;
  data_map = [];
  recvbit = replicate chunk_size 0;
}

-- The condition of the `while` loop.
unfoldable pub is_waiting : Server → Bool
is_waiting s = s.comp_size == uint_max || ltb s.recv_size s.comp_size

-- `recvbit[i] = 1`
unfoldable pub set_bit : Bytes → ℕ → Bytes
set_bit bits i =
    if bit_at bits i then bits else set bits (i / 8) (get_or bits (i / 8) 0 + 2 ^ (i % 8))

-- A chunk, where `had` is what the map has of it.
unfoldable pub store : Option Bytes → ℕ → Bytes → Server → Server
store none data_seq contents s = record {
  comp_size = s.comp_size;
  recv_size = (s.recv_size + chunk_size) % 2 ^ 32;
  data_map = insert data_seq contents s.data_map;
  recvbit = set_bit s.recvbit data_seq;
}
store (some had) data_seq contents s = record {
  comp_size = s.comp_size;
  recv_size = s.recv_size;
  data_map = s.data_map;
  recvbit = set_bit s.recvbit data_seq;
}

-- The body of the loop on a packet.
unfoldable pub on_packet : Packet → Server → Server
on_packet recv_hdr s =
    if recv_hdr.data_seq == 0
    then record {
      comp_size = field_u32 recv_hdr.contents 0;
      recv_size = s.recv_size;
      data_map = s.data_map;
      recvbit = set_bit s.recvbit 0;
    }
    else store (lookup recv_hdr.data_seq s.data_map) recv_hdr.data_seq recv_hdr.contents s

-- The loop on the packets that come.
unfoldable pub collect : List Packet → Server → Server
collect [] s = s
collect (p ∷ packets) s =
    let rest = collect packets (on_packet p s) in if is_waiting s then rest else s

-- What `do_reponse` sends in the loop, and behind it.
unfoldable pub response : Server → Packet
response s = record { data_seq = 0; contents = s.recvbit }

unfoldable pub fin : Server → Packet
fin s = record { data_seq = uint_max; contents = s.recvbit }

-- The loop over `data`, into `comp_data`: none if it writes behind it.
unfoldable pub assemble : Bytes → Map Bytes → Option Bytes
assemble comp_data [] = some comp_data
assemble comp_data ((seq, data_frag) ∷ rest) =
    let next = assemble (replace comp_data ((seq - 1) * chunk_size) chunk_size data_frag) rest in
    if seq == 0
    then assemble comp_data rest
    else if leb (seq * chunk_size) (length comp_data)
    then next
    else none

-- The size of `comp_data`.
unfoldable pub buffer_size : ℕ → ℕ
buffer_size comp_size = (1 + (comp_size - 1) / chunk_size) * chunk_size

-- The loop that writes the files, each with its number: none if it reads behind `orig_data`.
abbrev pub add_file : ℕ × Bytes → Option (List (ℕ × Bytes)) → Option (List (ℕ × Bytes))
add_file file none = none
add_file file (some files) = some (file ∷ files)

unfoldable pub unpack : ℕ → Bytes → Option (List (ℕ × Bytes))
unpack zero ptr = if length ptr == 0 then some [] else none
unpack (suc fuel) ptr =
    let filesize = field_u32 ptr 4 in
    let rest = drop 8 ptr in
    let later = unpack fuel (drop filesize rest) in
    if length ptr == 0
    then some []
    else if ltb (length ptr) 8
    then none
    else if ltb (length rest) filesize
    then none
    else add_file (field_u32 ptr 0, take filesize rest) later

-- `save_to_file` behind the loop over the chunks.
abbrev pub save_stream : (Bytes → Bytes) → ℕ → Option Bytes → Option (List (ℕ × Bytes))
save_stream decompress comp_size none = none
save_stream decompress comp_size (some comp_data) =
    let orig_data = decompress (take comp_size comp_data) in unpack (length orig_data) orig_data

-- `save_to_file`, where `memory` is what the new buffer holds and `decompress` is the call of zstd: the
-- files that are written.
unfoldable pub save_to_file : (Bytes → Bytes) → Bytes → Server → Option (List (ℕ × Bytes))
save_to_file decompress memory s = save_stream decompress s.comp_size (assemble memory s.data_map)
