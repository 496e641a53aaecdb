-- ===== src/Star/Deliver.antt =====
-- lab6/others/Star/src/server.cpp: what the loop has of the chunks that client.cpp sends.
use inp.Common.{
  ℕ, ◌+◌, ◌*◌, ◌^◌, ◌≤◌, ◌<◌, ◌≡◌, ◌≢◌, ◌⊎◌, inl, inr, refl, sym, ap, ◌∙◌, false, List, [], ◌∷◌,
  Option, none, some, ◌==◌, length, Bool-cases, All, arith,
}
use inp.Common.Bytes.{Bytes}
use inp.Common.Fields.{field_u32}
use inp.Common.Maps.{Map, lookup, insert, lookup-insert}
use inp.Star.{chunk_size, uint_max, Packet, bytes_u32, zero_chunk, padded, wrap_send}
use inp.Star.Server.{Server, start, is_waiting, store, on_packet, collect}
use inp.Star.Entries.{piece, Entries, IsChunk, Entries-insert, length-Entries}

-- A packet that the client sends.
abbrev pub zero_packet : Bytes → Packet
zero_packet comp = wrap_send 0 (zero_chunk (length comp))

abbrev pub chunk_packet : Bytes → ℕ → Packet
chunk_packet comp k = record { data_seq = k; contents = piece comp k }

unfoldable pub IsSent : Bytes → Packet → Type 0
IsSent comp p = (p ≡ zero_packet comp) ⊎ ((k : ℕ) × IsChunk comp k × (p ≡ chunk_packet comp k))

-- What the server has while the client's packets come.
unfoldable pub Collected : Bytes → Server → Type 0
Collected comp s =
    ((s.comp_size ≡ uint_max) ⊎ (s.comp_size ≡ length comp))
    × Entries comp 1 s.data_map
    × (s.recv_size ≡ length s.data_map * chunk_size)

pub start-Collected : (comp : Bytes) → Collected comp start
unfolding Collected Entries
start-Collected comp = (inl refl, tt, refl)

zero_packet_size :
    (comp : Bytes)
    → length comp < 2 ^ 32
    → field_u32 (padded (zero_chunk (length comp))) 0 ≡ length comp
unfolding padded zero_chunk bytes_u32 field_u32
zero_packet_size comp h = omega arith

pub on_packet-zero :
    (comp : Bytes) (s : Server)
    → length comp < 2 ^ 32
    → ((on_packet (zero_packet comp) s).comp_size ≡ length comp)
      × ((on_packet (zero_packet comp) s).data_map ≡ s.data_map)
      × ((on_packet (zero_packet comp) s).recv_size ≡ s.recv_size)
unfolding on_packet wrap_send
on_packet-zero comp s h = (zero_packet_size comp h, refl, refl)

pub on_packet-store :
    (comp : Bytes) (k : ℕ) (s : Server)
    → 1 ≤ k
    → on_packet (chunk_packet comp k) s ≡ store (lookup k s.data_map) k (piece comp k) s
unfolding on_packet
on_packet-store comp k s h = let is_chunk : (k == 0) ≡ false = ground arith in rw is_chunk refl

-- A chunk that is new is stored, and one that is not changes no more than its bit.
unfoldable pub Grows : ℕ → Server → Server → Type 0
Grows k s next =
    (next.comp_size ≡ s.comp_size)
    × ((j : ℕ) → lookup j s.data_map ≢ none → lookup j next.data_map ≢ none)
    × (lookup k next.data_map ≢ none)

none-some : {v : Bytes} → some v ≢ none
none-some h = ground arith

pub store-Grows :
    (k : ℕ) (v : Bytes) (s : Server) (had : Option Bytes)
    → lookup k s.data_map ≡ had
    → Grows k s (store had k v s)
unfolding store Grows
store-Grows k v s none e = (
  refl,
  λ j there gone. there (ground (arith, gone, lookup-insert k j v s.data_map)),
  λ gone. ground (arith, gone, lookup-insert k k v s.data_map),
)
store-Grows k v s (some old) e = (refl, λ j there. there, λ gone. none-some (sym e ∙ gone))

below :
    (comp : Bytes) (m : Map Bytes)
    → length comp + chunk_size < 2 ^ 32
    → Entries comp 1 m
    → length m * chunk_size < 2 ^ 32
below comp m small h = elim (length-Entries comp 1 m (omega arith) h) [
  | inl e ↦ let empty : length m ≡ 0 = ap length e in omega (arith, empty)
  | inr count ↦ omega (arith, count, small)
]

store-Collected :
    (comp : Bytes) (k : ℕ) (s : Server) (had : Option Bytes)
    → length comp + chunk_size < 2 ^ 32
    → IsChunk comp k
    → Collected comp s
    → lookup k s.data_map ≡ had
    → Collected comp (store had k (piece comp k) s)
unfolding store Collected IsChunk
store-Collected comp k s none small chunk h absent =
    let added = Entries-insert comp 1 k s.data_map h.1 chunk.0 chunk absent in
    let fits : length (insert k (piece comp k) s.data_map) * chunk_size < 2 ^ 32 =
      below comp (insert k (piece comp k) s.data_map) small added.0 in
    (h.0, added.0, omega (arith, fits, h.2, added.1))
store-Collected comp k s (some old) small chunk h there = h

zero-Collected :
    (comp : Bytes) (s : Server)
    → length comp + chunk_size < 2 ^ 32
    → Collected comp s
    → Collected comp (on_packet (zero_packet comp) s)
unfolding Collected
zero-Collected comp s small h =
    let zero = on_packet-zero comp s (omega arith) in
    (inr zero.0, rw zero.1 h.1, rw (zero.1, zero.2) h.2)

pub on_packet-Collected :
    (comp : Bytes) (p : Packet) (s : Server)
    → length comp + chunk_size < 2 ^ 32
    → IsSent comp p
    → Collected comp s
    → Collected comp (on_packet p s)
unfolding IsSent IsChunk
on_packet-Collected comp p s small (inl zero_sent) h = rw zero_sent (zero-Collected comp s small h)
on_packet-Collected comp p s small (inr (k, chunk, sent)) h =
    rw (sent, on_packet-store comp k s chunk.0)
      (store-Collected comp k s (lookup k s.data_map) small chunk h refl)

-- After any packets of the client, in any order and with any losses and copies.
pub collect-Collected :
    (comp : Bytes) (packets : List Packet) (s : Server)
    → length comp + chunk_size < 2 ^ 32
    → All (IsSent comp) packets
    → Collected comp s
    → Collected comp (collect packets s)
unfolding collect
collect-Collected comp [] s small sent h = h
collect-Collected comp (p ∷ packets) s small sent h =
    let next = on_packet-Collected comp p s small sent.0 h in
    elim (Bool-cases (is_waiting s)) [
      | inl waits ↦ rw waits (collect-Collected comp packets (on_packet p s) small sent.1 next)
      | inr done ↦ rw done h
    ]
