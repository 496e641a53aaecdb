-- ===== src/Transfer.antt =====
-- The robust file transfer over UDP of lab6/src: the packets and the checksum of header.hpp, and what
-- server.cpp does with each datagram.
pub mod Crc
pub mod Client
pub mod Server
pub mod Rows
pub mod Files
pub mod Filling
pub mod Complete
pub mod Window
pub mod Arrival
pub mod Delivered
pub mod Resend
pub mod Damage
pub mod Answer
pub mod Loop
mod Tests
use Prim.Native.Nat.{bit_xor}
use inp.Common.{
  ℕ, zero, suc, ◌+◌, ◌-◌, ◌/◌, ◌%◌, Bool, true, false, List, [], ◌∷◌, ◌++◌, Option, none, some,
  ◌==◌, ltb, leb, if◌then◌else◌, get_or, set, take, replicate, length,
}
use inp.Common.Bytes.{Bytes}
use inp.Common.Maps.{Map, insert}

-- `PACKET_SIZE`
abbrev pub packet_size : ℕ
packet_size = 1200

-- `INITIAL_WIN_SIZE`
abbrev pub initial_win_size : ℕ
initial_win_size = 1000

-- `MAX_PACKETS`
abbrev pub max_packets : ℕ
max_packets = 48

-- `FINISH`
abbrev pub finish : ℕ
finish = 30000

-- `NO_ACK`
abbrev pub no_ack : ℕ
no_ack = 65535

-- A packet in memory; `behind` is what stands behind the array of its data.
pub record Packet : Type 0 where
  pub file_number : ℕ
  pub packet_number : ℕ
  pub total_packets : ℕ
  pub checksum : ℕ
  pub length : ℕ
  pub packet_data : Bytes
  pub behind : Bytes

pub record Ack : Type 0 where
  pub file_number : ℕ
  pub stored_packet : List Bool

-- The rounds of the inner loop of `calculateCRC`, of which there are `left` to go.
unfoldable pub crc_bits : ℕ → ℕ → ℕ
crc_bits zero crc = crc
crc_bits (suc left) crc = crc_bits left (if crc % 2 == 1 then bit_xor (crc / 2) 0xa001 else crc / 2)

unfoldable pub calculate_crc : Bytes → ℕ → ℕ
unfolding crc_bits
calculate_crc [] crc = crc
calculate_crc (b ∷ bytes) crc = calculate_crc bytes (crc_bits 8 (bit_xor crc b))

-- A `uint16_t` in memory, low byte first.
abbrev pub bytes_of : ℕ → Bytes
bytes_of n = n % 256 ∷ n / 256 ∷ []

-- The bytes of a packet in front of its `checksum`.
abbrev pub packet_head : Packet → Bytes
packet_head packet =
    bytes_of packet.file_number ++ (bytes_of packet.packet_number ++ bytes_of packet.total_packets)

-- The checksum that both programs compute of a packet.
unfoldable pub packet_crc : Packet → ℕ
unfolding calculate_crc
packet_crc packet = calculate_crc packet.packet_data (calculate_crc (packet_head packet) 0xffff)

-- `std::string(packet.data, packet.length)`: it reads on behind the data when `length` is above their
-- number.
abbrev pub text_of : Packet → Bytes
text_of packet = take packet.length (packet.packet_data ++ packet.behind)

-- The global vectors of the server, the files it has written, and the window of `main`.
pub record Store : Type 0 where
  pub stored_packet : List (List Bool)
  pub datas : List (List Bytes)
  pub expanded : List Bool
  pub file_saved : List Bool
  pub files : Map Bytes
  pub start_file : ℕ
  pub end_file : ℕ

unfoldable pub initial_store : Store
initial_store = record {
  stored_packet = replicate 1000 [];
  datas = replicate 1000 [];
  expanded = replicate 1000 false;
  file_saved = replicate 1001 false;
  files = [];
  start_file = 0;
  end_file = initial_win_size;
}

-- `v.resize(n, a)`
unfoldable pub resize {ℓ} : {A : Type ℓ} → ℕ → A → List A → List A
resize n a xs = take n xs ++ replicate (n - length xs) a

-- A file's row of `stored_packet` and of `datas`.
abbrev pub stored_of : Store → ℕ → List Bool
stored_of s file = get_or s.stored_packet file []

abbrev pub datas_of : Store → ℕ → List Bytes
datas_of s file = get_or s.datas file []

unfoldable pub expand : Packet → Store → Store
unfolding resize
expand packet s =
    let file = packet.file_number in
    if get_or s.expanded file false then s else record s {
      stored_packet =
          set s.stored_packet file (resize packet.total_packets false (stored_of s file));
      datas = set s.datas file (resize packet.total_packets [] (datas_of s file));
      expanded = set s.expanded file true;
    }

unfoldable pub store_packet : Packet → Store → Store
store_packet packet s =
    let file = packet.file_number in
    if get_or (stored_of s file) packet.packet_number false then s else record s {
      datas = set s.datas file (set (datas_of s file) packet.packet_number (text_of packet));
      stored_packet = set s.stored_packet file (set (stored_of s file) packet.packet_number true);
    }

-- The loop that finds whether all the packets of a file are stored.
unfoldable pub save_flg : List Bool → Bool
save_flg [] = true
save_flg (stored ∷ rest) = if stored then save_flg rest else false

-- What `store_file` writes.
unfoldable pub file_bytes : List Bytes → Bytes
file_bytes [] = []
file_bytes (piece ∷ rest) = piece ++ file_bytes rest

-- `store_file` and the clearing after it.
unfoldable pub save : ℕ → Store → Store
unfolding file_bytes
save file s = record s {
  files = insert file (file_bytes (datas_of s file)) s.files;
  stored_packet = set s.stored_packet file [];
  datas = set s.datas file [];
  file_saved = set s.file_saved file true;
}

unfoldable pub is_empty : List Bool → Bool
is_empty [] = true
is_empty (x ∷ xs) = false

-- The body of the inner loop of `main` on a packet, and whether the loop receives another one.
unfoldable pub receive : Packet → Store → Bool × Store
receive packet s =
    if packet.checksum == packet_crc packet
    then (let file = packet.file_number in
        let s₁ = expand packet s in
        if is_empty (stored_of s₁ file)
        then (false, s₁)
        else (let s₂ = store_packet packet s₁ in
            if save_flg (stored_of s₂ file) then (false, save file s₂) else (true, s₂)))
    else (false, s)

-- The first file from `i` on, of `left` files, that is not saved.
unfoldable pub find_unsaved : ℕ → ℕ → List Bool → Option ℕ
find_unsaved zero i file_saved = none
find_unsaved (suc left) i file_saved =
    if get_or file_saved i false then find_unsaved left (i + 1) file_saved else some i

unfoldable pub set_window : Store → Store
unfolding find_unsaved
set_window s = elim (find_unsaved (1001 - s.start_file) s.start_file s.file_saved) [
  | none ↦ s
  | some i ↦ record s {
    start_file = i;
    end_file = if leb 1000 (i + initial_win_size) then 1000 else i + initial_win_size;
  }
]
