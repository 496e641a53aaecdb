-- ===== src/Transfer/Client.antt =====
-- The client of lab6/src/client.cpp: the packets that it makes of a file in answer to an
-- acknowledgement, and its main loop.
use inp.Common.{
  ℕ, zero, suc, ◌+◌, ◌*◌, ◌/◌, ◌%◌, ◌^◌, Bool, true, false, List, [], ◌∷◌, ◌++◌, Option, none, some,
  ◌==◌, if◌then◌else◌, get_or, set, take, drop, length,
}
use inp.Common.Bytes.{Bytes}
use inp.Transfer.{Packet, Ack, packet_crc, packet_size, max_packets, finish, no_ack}

-- The packet of the file's piece `i`, in the `packet` that held the piece before it. The rest of its
-- data stays as it was.
unfoldable pub fill : Bytes → ℕ → Packet → Packet
fill file i packet =
    let read = take packet_size (drop (i * packet_size) file) in
    let filled = record packet {
      packet_data = read ++ drop (length read) packet.packet_data;
      length = length read;
      packet_number = i;
    } in
    record filled { checksum = packet_crc filled }

-- The loop of `send_file` from piece `i` on. `beyond` is what an acknowledgement reads as out of its
-- range.
unfoldable pub send_from : (ℕ → Bool) → Bytes → Ack → ℕ → ℕ → Packet → List Packet
unfolding fill
send_from beyond file ack zero i packet = []
send_from beyond file ack (suc left) i packet = elim (get_or ack.stored_packet i (beyond i)) [
  | true ↦ send_from beyond file ack left (i + 1) packet
  | false ↦ fill file i packet ∷ send_from beyond file ack left (i + 1) (fill file i packet)
]

-- `send_file` behind `fopen`. `packet` is what the local variable happens to hold.
unfoldable pub send_packets : (ℕ → Bool) → Packet → Bytes → Ack → ℕ → List Packet
unfolding send_from
send_packets beyond packet file ack file_number =
    let total = (length file / packet_size + 1) % 2 ^ 16 in
    send_from beyond file ack total 0
      (record packet { total_packets = total; file_number = file_number % 2 ^ 16 })

-- `send_file`. Without the file the program exits.
unfoldable pub send_file : (ℕ → Bool) → Packet → (ℕ → Option Bytes) → Ack → ℕ → Option (List Packet)
unfolding send_packets
send_file beyond packet files ack file_number = elim (files file_number) [
  | none ↦ none
  | some file ↦ some (send_packets beyond packet file ack file_number)
]

-- The loop of `init_send` from file `i` on, with the acknowledgement that it made.
unfoldable pub init_send_from :
    (ℕ → Bool) → Packet → (ℕ → Option Bytes) → Ack → ℕ → ℕ → Option (List Packet)
unfolding send_file
init_send_from beyond packet files ack zero i = some []
init_send_from beyond packet files ack (suc left) i =
    elim (send_file beyond packet files (record ack { file_number = i }) i) [
      | none ↦ none
      | some packets ↦ elim (init_send_from beyond packet files ack left (i + 1)) [
        | none ↦ none
        | some rest ↦ some (packets ++ rest)
      ]
    ]

-- `init_send`: its one write is to the place behind the 48 bits of `ack`, which stay as they were.
unfoldable pub init_send : (ℕ → Bool) → Packet → (ℕ → Option Bytes) → Ack → Option (List Packet)
unfolding init_send_from
init_send beyond packet files ack =
    init_send_from beyond packet files
      (record ack { stored_packet = set ack.stored_packet max_packets false }) 1000 0

-- What `main` does with what `getAck` returns.
pub data Reaction : Type 0 where
  waits : Reaction
  stops : Reaction
  exits : Reaction
  sends : List Packet → Reaction

unfoldable pub on_ack : (ℕ → Bool) → Packet → (ℕ → Option Bytes) → Ack → Reaction
on_ack beyond packet files ack =
    if ack.file_number == no_ack
    then waits
    else (if ack.file_number == finish
        then stops
        else (elim (send_file beyond packet files ack ack.file_number) [
          | none ↦ exits
          | some packets ↦ sends packets
        ]))
