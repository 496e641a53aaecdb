-- ===== src/Star/Delivered.antt =====
-- lab6/others/Star/src: client.cpp and server.cpp together.
use inp.Common.{◌*◌, ◌-◌, ◌^◌, ◌≤◌, ◌<◌, ◌≡◌, false, List, some, length, replicate, All, arith}
use inp.Common.Bytes.{Bytes}
use inp.Star.{chunk_size, Packet, pack, client, send_round, data_map_of}
use inp.Star.Server.{start, is_waiting, collect, buffer_size, save_to_file}
use inp.Star.Pack.{numbered}
use inp.Star.Deliver.{start-Collected, collect-Collected}
use inp.Star.Complete.{Contains, collect-ends}
use inp.Star.Rounds.{received-IsSent, send_round-chunks, no_bits}
use inp.Star.Saved.{saved_lem}

-- The calls of zstd, the client's files, what its socket receives in each turn, the packets that reach
-- the server, and the new buffer of `save_to_file`.
module _ (compress decompress : Bytes → Bytes) (undoes : (x : Bytes) → decompress (compress x) ≡ x)
    (files : List Bytes) (few : length files < 2 ^ 32)
    (fit : All (λ file. length file < 2 ^ 32) files)
    (some_bytes : 1 ≤ length (compress (pack 0 files)))
    (small : length (compress (pack 0 files)) ≤ (chunk_size * 8 - 1) * chunk_size)
    (turns : List (List Packet)) (packets : List Packet)
    (among : All (λ p. Contains p (client turns (compress (pack 0 files)))) packets)
    (memory : Bytes) (size : length memory ≡ buffer_size (length (compress (pack 0 files)))) where
  -- Whatever the client hears, whichever of its packets reach the server, in any order and with any
  -- losses and copies, and whatever the new buffer held: when the server's loop has ended, what it
  -- saves is the client's files, each under its number, where zstd decompresses what it has compressed
  -- and the stream has at most 9343 chunks.
  pub collect-saved :
      is_waiting (collect packets start) ≡ false
      → save_to_file decompress memory (collect packets start) ≡ some (numbered 0 files)
  collect-saved over =
      let stream = compress (pack 0 files) in
      let sent = received-IsSent stream turns packets among in
      saved_lem decompress stream files memory (collect packets start) (undoes (pack 0 files)) few
        fit some_bytes (omega arith) size
        (collect-Collected stream packets start (omega arith) sent (start-Collected stream)) over

  -- When the packets of the client's first round are all among those that reach the server, the loop
  -- ends, and the client's files are saved.
  pub collect-delivers :
      ((p : Packet)
        → Contains p (send_round (replicate chunk_size 0) (data_map_of (compress (pack 0 files))))
        → Contains p packets)
      → (is_waiting (collect packets start) ≡ false)
        × (save_to_file decompress memory (collect packets start) ≡ some (numbered 0 files))
  collect-delivers arrive =
      let stream = compress (pack 0 files) in
      let sent = received-IsSent stream turns packets among in
      let round = send_round-chunks stream (replicate chunk_size 0) no_bits in
      let over =
        collect-ends stream packets (omega arith) sent (arrive _ round.1)
          (λ k chunk. arrive _ (round.2 k chunk)) in
      (over, collect-saved over)
