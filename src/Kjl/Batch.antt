-- ===== src/Kjl/Batch.antt =====
-- lab6/others/KJL: a batch from client.cpp to the disk of server.cpp.
use inp.Common.{
  ◌*◌, ℕ, zero, suc, ◌+◌, ◌-◌, ◌/◌, ◌%◌, ◌^◌, ◌≤◌, ◌<◌, ◌≡◌, ◌≢◌, refl, ap, ◌∙◌, false, List, [],
  ◌++◌, Option, none, some, length, replicate, get_elem?, append_nil, All, arith,
}
use inp.Common.Bytes.{Bytes}
use inp.Common.Maps.{Map, lookup}
use inp.Star.{chunk_size, Packet, pack}
use inp.Star.Server.{start, is_waiting, buffer_size}
use inp.Star.Pack.{numbered}
use inp.Star.Deliver.{start-Collected, collect-Collected}
use inp.Star.Complete.{Contains}
use inp.Star.Rounds.{received-IsSent}
use inp.Kjl.{
  sub_size, put_file, read_files, read_batch, save_to_file, unpack_whole, written_files, send_batch,
  receive_batch,
}
use inp.Kjl.Padding.{tail_of}
use inp.Kjl.Saving.{
  unpack_whole_lem, add_files-some, add_files-none, written_files-append, emptied, copied,
}

-- The zeros that fill the last chunk.
abbrev pub padding : Bytes → ℕ
padding stream = buffer_size (length stream) - length stream

tail_of_lem : (r : ℕ) → (r ≡ 0 → tail_of r ≡ some []) × (r ≢ 0 → tail_of r ≡ none)
unfolding tail_of
tail_of_lem r = (λ h. ground (arith, h), λ h. ground (arith, h))

emptied_last :
    (files : List (ℕ × Bytes)) (n : ℕ) (disk : Map Bytes)
    → 1 ≤ n
    → lookup 0 (written_files (files ++ replicate n (0, [])) disk) ≡ some []
emptied_last files zero disk h = absurd (omega arith)
emptied_last files (suc n) disk h =
    rw (written_files-append files (replicate (suc n) (0, [])) disk)
      (emptied n (written_files files disk))

-- Whichever packets of a batch reach the server, once its loop has ended it saves the files of the
-- batch, each under its number, and then goes on into the zeros behind the stream: if eight divides
-- their number it writes an empty file with the number 0 for each eight of them, so that the first file
-- is lost where there are any, and otherwise it reads behind the vector. The stream has at most 9343
-- chunks.
pub save_to_file-padding :
    (turns : List (List Packet)) (packets : List Packet) (st : ℕ) (files : List Bytes)
    (disk : Map Bytes)
    → 1 ≤ length files
    → st + length files < 2 ^ 32
    → All (λ file. length file < 2 ^ 32) files
    → length (pack st files) ≤ (chunk_size * 8 - 1) * chunk_size
    → 1 ≤ length (pack st files)
    → All (λ p. Contains p (send_batch turns st files)) packets
    → is_waiting (receive_batch packets) ≡ false
    → let pad = padding (pack st files) in
      let written = numbered st files ++ replicate (pad / 8) (0, []) in
      (pad % 8 ≡ 0 → save_to_file (receive_batch packets) ≡ some written)
      × (8 ≤ pad → lookup 0 (written_files written disk) ≡ some [])
      × (pad % 8 ≢ 0 → save_to_file (receive_batch packets) ≡ none)
unfolding save_to_file send_batch receive_batch
save_to_file-padding turns packets st files disk some_files few fit small some_bytes among over =
    let stream = pack st files in
    let pad = padding stream in
    let sent = received-IsSent stream turns packets among in
    let have = collect-Collected stream packets start (omega arith) sent (start-Collected stream) in
    let whole = copied stream (receive_batch packets) some_bytes (omega arith) have over in
    let result = ap unpack_whole whole ∙ unpack_whole_lem st files pad some_files few fit in
    let tail = tail_of_lem (pad % 8) in
    (
      λ even.
          result
          ∙ rw
              (
                tail.0 even,
                add_files-some (replicate (pad / 8) (0, [])) [],
                append_nil (replicate {A = ℕ × Bytes} (pad / 8) (0, [])),
              )
              (add_files-some (numbered st files) (replicate (pad / 8) (0, []))),
      λ some_zeros. emptied_last (numbered st files) (pad / 8) disk (omega arith),
      λ odd.
          result
          ∙ rw (tail.1 odd, add_files-none (replicate (pad / 8) (0, [])))
              (add_files-none (numbered st files)),
    )

-- The vector has no place behind its fifty files.
put_file_behind :
    (files : List Bytes) (idx : ℕ) (data_of : Option Bytes)
    → length files ≤ idx
    → put_file files idx data_of ≡ none
put_file_behind files idx none h = refl
put_file_behind files idx (some data_of) h = ground (arith, h)

-- No batch but the first is sent: its files are written behind the vector.
pub read_batch-none :
    (st : ℕ) (disk files : List Bytes)
    → sub_size ≤ st
    → length files ≡ sub_size
    → read_batch st disk files ≡ none
unfolding read_batch read_files
read_batch-none st disk files h size =
    rw (put_file_behind files st (get_elem? disk st) (omega (arith, h, size))) refl
