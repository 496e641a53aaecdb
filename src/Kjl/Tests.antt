-- ===== src/Kjl/Tests.antt =====
-- A run of lab6/others/KJL.
use inp.Common.{
  ◌*◌, ◌-◌, ◌/◌, ◌%◌, ◌^◌, ◌≤◌, ◌<◌, ◌≡◌, ◌≢◌, refl, inl, inr, false, List, [], ◌∷◌, ◌++◌, none,
  some, length, take, replicate, All, arith,
}
use inp.Common.Bytes.{Bytes, text}
use inp.Common.Fields.{field_u32}
use inp.Common.Maps.{lookup, insert}
use inp.Star.{
  chunk_size, Packet, pack, bytes_u32, client, transmit, send_round, read_resps, data_map_of,
  chunks_from, bit_at, wrap_send, padded, zero_chunk,
}
use inp.Star.Server.{is_waiting, on_packet, store, collect}
use inp.Star.Pack.{numbered}
use inp.Star.Complete.{Contains}
use inp.Kjl.{save_to_file, written_files, send_batch, receive_batch}
use inp.Kjl.Batch.{padding, save_to_file-padding}

abbrev files : List Bytes
files = text "abcdefgh" ∷ text "ijklmnop" ∷ []

abbrev stream : Bytes
stream = pack 0 files

abbrev turns : List (List Packet)
turns = [] ∷ []

abbrev packets : List Packet
packets = wrap_send 1 (take chunk_size stream) ∷ wrap_send 0 (zero_chunk (length stream)) ∷ []

sent :
    send_batch turns 0 files
    ≡ wrap_send 0 (zero_chunk (length stream)) ∷ wrap_send 1 (take chunk_size stream) ∷ []
unfolding send_batch client transmit send_round data_map_of chunks_from bit_at read_resps pack
    bytes_u32 text
sent = refl

among : All (λ p. Contains p (send_batch turns 0 files)) packets
unfolding Contains
among = rw sent (inr (inl refl), (inl refl, tt))

ends : is_waiting (receive_batch packets) ≡ false
unfolding receive_batch is_waiting collect on_packet store lookup insert wrap_send padded zero_chunk
    pack bytes_u32 text field_u32
ends = refl

fits :
    (length stream ≤ (chunk_size * 8 - 1) * chunk_size)
    × (1 ≤ length stream)
    × All (λ file. length file < 2 ^ 32) files
unfolding pack bytes_u32 text
fits = (omega arith, omega arith, (omega arith, (omega arith, tt)))

save_to_file-padding_example :
    let pad = padding stream in
    let written = numbered 0 files ++ replicate (pad / 8) (0, []) in
    (pad % 8 ≡ 0 → save_to_file (receive_batch packets) ≡ some written)
    × (8 ≤ pad → lookup 0 (written_files written []) ≡ some [])
    × (pad % 8 ≢ 0 → save_to_file (receive_batch packets) ≡ none)
save_to_file-padding_example =
    save_to_file-padding turns packets 0 files [] (omega arith) (omega arith) fits.2 fits.0 fits.1
      among ends
