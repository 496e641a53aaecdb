-- ===== src/Star/Acks.antt =====
-- lab6/others/Star/src: the acknowledgements of server.cpp, and what client.cpp erases for them.
use inp.Common.{
  ℕ, zero, suc, ◌+◌, ◌-◌, ◌*◌, ◌^◌, ◌≤◌, ◌<◌, ◌≡◌, inl, inr, refl, ◌∙◌, Bool, true, false, ◌&&◌,
  not, List, [], ◌∷◌, Option, none, some, ltb, leb, ◌==◌, if◌then◌else◌, length, length-replicate,
  Bool-cases, All, arith,
}
use inp.Common.Bytes.{Bytes}
use inp.Common.Maps.{Map, lookup, erase, lookup-erase, lookup-insert}
use inp.Star.{chunk_size, uint_max, Packet, bit_at, erase_done, read_resps, client, wrap_send}
use inp.Star.Server.{Server, start, is_waiting, store, on_packet, collect, response}
use inp.Star.Entries.{IsChunk, piece}
use inp.Star.Deliver.{IsSent, zero_packet, on_packet-zero, on_packet-store}
use inp.Star.Complete.{Contains}
use inp.Star.Rounds.{no_bits, received-IsSent}
use inp.Star.Bits.{bit_at-set_bit, length-set_bit}

abbrev is_some : Option Bytes → Bool
is_some none = false
is_some (some v) = true

-- Whether the server has what the number stands for: the size, or a chunk.
unfoldable pub has : Server → ℕ → Bool
has s j = if j == 0 then not (s.comp_size == uint_max) else is_some (lookup j s.data_map)

-- The bits tell what the server has.
Tells : Server → Type 0
Tells s = (length s.recvbit ≡ chunk_size) × ((j : ℕ) → bit_at s.recvbit j ≡ has s j)

start-Tells : Tells start
unfolding Tells has lookup
start-Tells = (
  length-replicate {A = ℕ} chunk_size 0,
  λ j. no_bits j ∙ elim (Bool-cases (j == 0)) [ inl e ↦ rw e refl | inr e ↦ rw e refl ],
)

zero-Tells :
    (comp : Bytes) (s : Server)
    → length comp + chunk_size < 2 ^ 32
    → Tells s
    → Tells (on_packet (zero_packet comp) s)
unfolding Tells has on_packet wrap_send
zero-Tells comp s small h =
    let size = (on_packet-zero comp s (omega arith)).0 in
    (
      length-set_bit s.recvbit 0 ∙ h.0,
      λ j. bit_at-set_bit s.recvbit 0 j (omega (arith, h.0)) ∙ ground (arith, h.1 j, size, small),
    )

store-Tells :
    (k : ℕ) (v : Bytes) (s : Server) (had : Option Bytes)
    → 1 ≤ k
    → k < chunk_size * 8
    → lookup k s.data_map ≡ had
    → Tells s
    → Tells (store had k v s)
unfolding Tells has store
store-Tells k v s none low high e h = (
  length-set_bit s.recvbit k ∙ h.0,
  λ j.
      bit_at-set_bit s.recvbit k j (omega (arith, h.0, high))
      ∙ ground (arith, h.1 j, lookup-insert k j v s.data_map, low),
)
store-Tells k v s (some old) low high e h = (
  length-set_bit s.recvbit k ∙ h.0,
  λ j. bit_at-set_bit s.recvbit k j (omega (arith, h.0, high)) ∙ ground (arith, h.1 j, e, low),
)

-- The entries that are left.
lookup-erase_done :
    (left i j : ℕ) (bits : Bytes) (m : Map Bytes)
    → lookup j (erase_done left i bits m)
      ≡ (if leb i j && (ltb j (i + left) && bit_at bits j) then none else lookup j m)
unfolding erase_done
lookup-erase_done zero i j bits m = ground arith
lookup-erase_done (suc left) i j bits m = elim (Bool-cases (bit_at bits i)) [
  | inl on ↦
      rw on
        (ground (arith, on, lookup-erase_done left (suc i) j bits (erase i m), lookup-erase i j m))
  | inr off ↦ rw off (ground (arith, off, lookup-erase_done left (suc i) j bits m))
]

on_packet-Tells :
    (comp : Bytes) (p : Packet) (s : Server)
    → length comp ≤ (chunk_size * 8 - 1) * chunk_size
    → IsSent comp p
    → Tells s
    → Tells (on_packet p s)
unfolding IsSent IsChunk
on_packet-Tells comp p s small (inl e) h = rw e (zero-Tells comp s (omega arith) h)
on_packet-Tells comp p s small (inr (k, chunk, e)) h =
    rw (e, on_packet-store comp k s chunk.0)
      (store-Tells k (piece comp k) s (lookup k s.data_map) chunk.0
        (omega (arith, small, chunk.0, chunk.1)) refl h)

collect-Tells :
    (comp : Bytes) (packets : List Packet) (s : Server)
    → length comp ≤ (chunk_size * 8 - 1) * chunk_size
    → All (IsSent comp) packets
    → Tells s
    → Tells (collect packets s)
unfolding collect
collect-Tells comp [] s small sent h = h
collect-Tells comp (p ∷ packets) s small sent h = elim (Bool-cases (is_waiting s)) [
  | inl waits ↦ rw waits (
      collect-Tells comp packets (on_packet p s) small sent.1
        (on_packet-Tells comp p s small sent.0 h))
  | inr over ↦ rw over h
]

bit_at-has : (s : Server) (j : ℕ) → Tells s → bit_at s.recvbit j ≡ has s j
unfolding Tells
bit_at-has s j h = h.1 j

-- When the client reads an acknowledgement of the server, it goes on without exactly those numbers
-- that the server has: nothing is erased that has not come, and nothing that has come is kept. The
-- stream has at most 9343 chunks, as many as a packet has bits.
pub erase_done-has :
    (comp : Bytes) (turns : List (List Packet)) (packets : List Packet) (donebit : Bytes)
    (m : Map Bytes) (j : ℕ)
    → length comp ≤ (chunk_size * 8 - 1) * chunk_size
    → All (λ p. Contains p (client turns comp)) packets
    → j < chunk_size * 8
    → let s = collect packets start in
      let bits = (response s).contents in
      (read_resps donebit (response s ∷ []) ≡ some bits)
      × (lookup j (erase_done (chunk_size * 8) 0 bits m) ≡ (if has s j then none else lookup j m))
unfolding response read_resps
erase_done-has comp turns packets donebit m j small among high =
    let sent = received-IsSent comp turns packets among in
    let tells = collect-Tells comp packets start small sent start-Tells in
    let s = collect packets start in
    let left = lookup-erase_done (chunk_size * 8) 0 j s.recvbit m in
    (refl, ground (arith, left, bit_at-has s j tells, high))
