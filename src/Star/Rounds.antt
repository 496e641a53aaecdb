-- ===== src/Star/Rounds.antt =====
-- lab6/others/Star/src/client.cpp: what its rounds send.
use inp.Common.{
  ℕ, zero, suc, ◌+◌, ◌-◌, ◌*◌, ◌/◌, ◌%◌, ◌^◌, ◌≤◌, ◌<◌, ◌≡◌, inl, inr, refl, false, List, [], ◌∷◌,
  Option, none, some, ltb, ltb→lt, lt→ltb, le_or_gt, ◌==◌, length, take, drop, replicate, get_or,
  Bool-cases, All, All-append, All-map, arith,
}
use inp.Common.Bytes.{Bytes}
use inp.Common.Maps.{Map, erase}
use native.Mathlib.Nat.{zero-div}
use inp.Star.{
  chunk_size, Packet, zero_chunk, chunks_from, data_map_of, wrap_send, bit_at, send_round,
  read_resps, erase_done, next_turn, transmit, client,
}
use inp.Star.Entries.{IsChunk, piece}
use inp.Star.Deliver.{IsSent, zero_packet, chunk_packet}
use inp.Star.Complete.{Contains}

-- An entry of the client's map.
unfoldable pub IsEntry : Bytes → ℕ × Bytes → Type 0
IsEntry comp e = IsSent comp (wrap_send e.0 e.1)

chunk_sent :
    (i : ℕ) (comp : Bytes)
    → wrap_send (suc i) (take chunk_size (drop (i * chunk_size) comp)) ≡ chunk_packet comp (suc i)
unfolding wrap_send piece
chunk_sent i comp = let at : suc i - 1 ≡ i = omega arith in rw at refl

chunks_from-IsEntry : (fuel i : ℕ) (comp : Bytes) → All (IsEntry comp) (chunks_from fuel i comp)
unfolding chunks_from IsEntry IsSent IsChunk
chunks_from-IsEntry zero i comp = tt
chunks_from-IsEntry (suc fuel) i comp = elim (Bool-cases (ltb (i * chunk_size) (length comp))) [
  | inl more ↦
      let inside = ltb→lt (i * chunk_size) (length comp) more in
      rw more (
        inr (suc i, (omega arith, omega (arith, inside)), chunk_sent i comp),
        chunks_from-IsEntry fuel (suc i) comp,
      )
  | inr over ↦ rw over tt
]

data_map_of-IsEntry : (comp : Bytes) → All (IsEntry comp) (data_map_of comp)
unfolding data_map_of IsEntry IsSent
data_map_of-IsEntry comp = (inl refl, chunks_from-IsEntry (length comp) 0 comp)

send_round-IsSent :
    (comp bits : Bytes) (m : Map Bytes)
    → All (IsEntry comp) m
    → All (IsSent comp) (send_round bits m)
unfolding send_round IsEntry
send_round-IsSent comp bits [] h = tt
send_round-IsSent comp bits ((k, chunk) ∷ m) h =
    ground (arith, h, send_round-IsSent comp bits m h.1)

erase-IsEntry :
    (comp : Bytes) (k : ℕ) (m : Map Bytes) → All (IsEntry comp) m → All (IsEntry comp) (erase k m)
unfolding erase
erase-IsEntry comp k [] h = tt
erase-IsEntry comp k ((j, chunk) ∷ m) h = ground (arith, h, erase-IsEntry comp k m h.1)

erase_done-IsEntry :
    (comp : Bytes) (left i : ℕ) (bits : Bytes) (m : Map Bytes)
    → All (IsEntry comp) m
    → All (IsEntry comp) (erase_done left i bits m)
unfolding erase_done
erase_done-IsEntry comp zero i bits m h = h
erase_done-IsEntry comp (suc left) i bits m h = elim (Bool-cases (bit_at bits i)) [
  | inl done ↦
      rw done (erase_done-IsEntry comp left (suc i) bits (erase i m) (erase-IsEntry comp i m h))
  | inr more ↦ rw more (erase_done-IsEntry comp left (suc i) bits m h)
]

-- With no bit set, a round sends every entry.
send_round-Contains :
    (bits : Bytes) (k : ℕ) (chunk : Bytes) (m : Map Bytes)
    → ((i : ℕ) → bit_at bits i ≡ false)
    → Contains (wrap_send k chunk) (send_round bits ((k, chunk) ∷ m))
unfolding send_round Contains
send_round-Contains bits k chunk m h = rw (h k) (inl refl)

send_round-later :
    (bits : Bytes) (p : Packet) (e : ℕ × Bytes) (m : Map Bytes)
    → Contains p (send_round bits m)
    → Contains p (send_round bits (e ∷ m))
unfolding send_round Contains
send_round-later bits p e m h = elim (Bool-cases (bit_at bits e.0)) [
  | inl set ↦ rw set h
  | inr clear ↦ rw clear (inr h)
]

chunks_from-Contains :
    (fuel i : ℕ) (comp bits : Bytes) (k : ℕ)
    → ((i : ℕ) → bit_at bits i ≡ false)
    → suc i ≤ k
    → k ≤ i + fuel
    → IsChunk comp k
    → Contains (chunk_packet comp k) (send_round bits (chunks_from fuel i comp))
unfolding chunks_from IsChunk
chunks_from-Contains zero i comp bits k clear low high chunk = absurd (omega arith)
chunks_from-Contains (suc fuel) i comp bits k clear low high chunk =
    let inside : i * chunk_size < length comp = omega (arith, low, chunk.1) in
    let first = take chunk_size (drop (i * chunk_size) comp) in
    let rest = chunks_from fuel (suc i) comp in
    elim (le_or_gt k (suc i)) [
      | inl this ↦
          let same : k ≡ suc i = omega arith in
          rw (lt→ltb _ _ inside, same, ← chunk_sent i comp)
            (send_round-Contains bits (suc i) first rest clear)
      | inr later ↦ rw (lt→ltb _ _ inside) (
          send_round-later bits (chunk_packet comp k) (suc i, first) rest
            (chunks_from-Contains fuel (suc i) comp bits k clear (omega arith) (omega arith) chunk))
    ]

next_turn-IsSent :
    (comp : Bytes) (f : Bytes → List Packet) (bits : Option Bytes)
    → ((b : Bytes) → All (IsSent comp) (f b))
    → All (IsSent comp) (next_turn f bits)
next_turn-IsSent comp f none h = tt
next_turn-IsSent comp f (some b) h = h b

transmit-IsSent :
    (comp : Bytes) (turns : List (List Packet)) (donebit : Bytes) (m : Map Bytes)
    → All (IsEntry comp) m
    → All (IsSent comp) (transmit turns donebit m)
unfolding transmit
transmit-IsSent comp [] donebit m h = tt
transmit-IsSent comp (responses ∷ turns) donebit [] h = tt
transmit-IsSent comp (responses ∷ turns) donebit (e ∷ m) h =
    All-append (IsSent comp) (send_round donebit (e ∷ m)) _
      (send_round-IsSent comp donebit (e ∷ m) h)
      (next_turn-IsSent comp _ (read_resps donebit responses) (λ bits.
        transmit-IsSent comp turns bits (erase_done (chunk_size * 8) 0 bits (e ∷ m))
          (erase_done-IsEntry comp (chunk_size * 8) 0 bits (e ∷ m) h)))

-- Whatever acknowledgements come, the client sends nothing but the packet with the size and the chunks
-- of the stream, each under its number.
pub client-IsSent :
    (comp : Bytes) (turns : List (List Packet)) → All (IsSent comp) (client turns comp)
unfolding client
client-IsSent comp turns =
    transmit-IsSent comp turns (replicate chunk_size 0) (data_map_of comp)
      (data_map_of-IsEntry comp)

IsSent-Contains :
    (comp : Bytes) (p : Packet) (packets : List Packet)
    → All (IsSent comp) packets
    → Contains p packets
    → IsSent comp p
unfolding Contains
IsSent-Contains comp p [] h never = absurd never
IsSent-Contains comp p (q ∷ packets) h (inl e) = rw e h.0
IsSent-Contains comp p (q ∷ packets) h (inr later) = IsSent-Contains comp p packets h.1 later

-- Packets that are among the client's.
pub received-IsSent :
    (comp : Bytes) (turns : List (List Packet)) (packets : List Packet)
    → All (λ p. Contains p (client turns comp)) packets
    → All (IsSent comp) packets
received-IsSent comp turns packets h =
    All-map (λ p. Contains p (client turns comp)) (IsSent comp) packets
      (λ p c. IsSent-Contains comp p (client turns comp) (client-IsSent comp turns) c) h

-- A round before any acknowledgement sends the packet with the size and every chunk of the stream, and
-- nothing else.
pub send_round-chunks :
    (comp bits : Bytes)
    → ((i : ℕ) → bit_at bits i ≡ false)
    → All (IsSent comp) (send_round bits (data_map_of comp))
      × Contains (zero_packet comp) (send_round bits (data_map_of comp))
      × ((k : ℕ)
          → IsChunk comp k
          → Contains (chunk_packet comp k) (send_round bits (data_map_of comp)))
unfolding data_map_of IsChunk
send_round-chunks comp bits clear =
    let chunks = chunks_from (length comp) 0 comp in
    (
      send_round-IsSent comp bits (data_map_of comp) (data_map_of-IsEntry comp),
      send_round-Contains bits 0 (zero_chunk (length comp)) chunks clear,
      λ k chunk.
          send_round-later bits (chunk_packet comp k) (0, zero_chunk (length comp)) chunks
            (chunks_from-Contains (length comp) 0 comp bits k clear chunk.0 (omega (arith, chunk.1))
              chunk),
    )

zeros_clear : (n i : ℕ) → get_or {A = ℕ} (replicate n 0) i 0 ≡ 0
zeros_clear zero i = refl
zeros_clear (suc n) zero = refl
zeros_clear (suc n) (suc i) = zeros_clear n i

zero_bit : (d : ℕ) → (0 / d % 2 == 1) ≡ false
zero_bit d = rw (zero-div d) refl

pub no_bits : (i : ℕ) → bit_at (replicate chunk_size 0) i ≡ false
unfolding bit_at
no_bits i = rw (zeros_clear chunk_size (i / 8)) (zero_bit (2 ^ (i % 8)))
