-- ===== src/Star/Tests.antt =====
-- A run of lab6/others/Star/src.
use inp.Common.{
  ◌-◌, if◌then◌else◌, ◌*◌, none, ◌≤◌, ◌≡◌, refl, inl, inr, subst, false, List, [], ◌∷◌, some,
  length, replicate, take, All, arith,
}
use inp.Common.Bytes.{Bytes, text}
use inp.Star.{
  chunk_size, Packet, pack, bytes_u32, client, transmit, send_round, read_resps, erase_done,
  data_map_of, chunks_from, bit_at, wrap_send, padded, zero_chunk,
}
use inp.Common.Fields.{field_u32}
use inp.Common.Maps.{lookup, insert}
use inp.Star.Server.{
  start, is_waiting, on_packet, response, store, collect, buffer_size, save_to_file,
}
use inp.Star.Pack.{numbered}
use inp.Star.Complete.{Contains}
use inp.Star.Acks.{has, erase_done-has}
use inp.Star.Delivered.{collect-saved, collect-delivers}

abbrev files : List Bytes
files = text "ab" ∷ [] ∷ text "c" ∷ []

-- A codec that puts a byte in front.
abbrev compress : Bytes → Bytes
compress x = 0 ∷ x

abbrev decompress : Bytes → Bytes
decompress [] = []
decompress (c ∷ x) = x

abbrev memory : Bytes
memory = replicate 1168 170

abbrev stream : Bytes
stream = compress (pack 0 files)

facts :
    (1 ≤ length stream)
    × (length stream ≤ (chunk_size * 8 - 1) * chunk_size)
    × (length memory ≡ buffer_size (length stream))
unfolding pack bytes_u32 text buffer_size
facts = (omega arith, omega arith, refl)

-- One turn in which the client hears nothing.
abbrev turns : List (List Packet)
turns = [] ∷ []

-- The chunk comes before the size, and again after it.
abbrev packets : List Packet
packets =
    wrap_send 1 (take chunk_size stream)
    ∷ wrap_send 0 (zero_chunk (length stream))
    ∷ wrap_send 1 (take chunk_size stream)
    ∷ []

sent :
    client turns stream
    ≡ wrap_send 0 (zero_chunk (length stream)) ∷ wrap_send 1 (take chunk_size stream) ∷ []
unfolding client transmit send_round data_map_of chunks_from bit_at read_resps pack bytes_u32 text
sent = refl

among : All (λ p. Contains p (client turns stream)) packets
unfolding Contains
among = rw sent (inr (inl refl), (inl refl, (inr (inl refl), tt)))

first_round :
    send_round (replicate chunk_size 0) (data_map_of stream)
    ≡ wrap_send 0 (zero_chunk (length stream)) ∷ wrap_send 1 (take chunk_size stream) ∷ []
unfolding send_round data_map_of chunks_from bit_at pack bytes_u32 text
first_round = refl

arrive :
    (p : Packet)
    → Contains p (send_round (replicate chunk_size 0) (data_map_of stream))
    → Contains p packets
unfolding Contains
arrive p c = elim (subst (Contains p) first_round c) [
  | inl size ↦ inr (inl size)
  | inr (inl chunk) ↦ inl chunk
  | inr (inr never) ↦ absurd never
]

ends : is_waiting (collect packets start) ≡ false
unfolding is_waiting collect on_packet store lookup insert wrap_send padded zero_chunk pack
    bytes_u32 text field_u32
ends = refl

collect-saved_example :
    save_to_file decompress memory (collect packets start) ≡ some (numbered 0 files)
unfolding text
collect-saved_example =
    collect-saved compress decompress (λ x. refl) files (omega arith)
      (omega arith, (omega arith, (omega arith, tt))) facts.0 facts.1 turns packets among memory
      facts.2 ends

collect-delivers_example :
    (is_waiting (collect packets start) ≡ false)
    × (save_to_file decompress memory (collect packets start) ≡ some (numbered 0 files))
unfolding text
collect-delivers_example =
    collect-delivers compress decompress (λ x. refl) files (omega arith)
      (omega arith, (omega arith, (omega arith, tt))) facts.0 facts.1 turns packets among memory
      facts.2 arrive

-- The map that the client keeps behind an acknowledgement of the three packets.
erase_done-has_example :
    (read_resps [] (response (collect packets start) ∷ [])
      ≡ some (response (collect packets start)).contents)
    × (lookup 1 (
          erase_done
            (chunk_size * 8)
            0
            (response (collect packets start)).contents
            (data_map_of stream))
        ≡ (if has (collect packets start) 1 then none else lookup 1 (data_map_of stream)))
unfolding pack bytes_u32 text
erase_done-has_example =
    erase_done-has stream turns packets [] (data_map_of stream) 1 (omega arith) among (omega arith)
