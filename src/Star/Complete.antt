-- ===== src/Star/Complete.antt =====
-- lab6/others/Star/src/server.cpp: the loop ends once every chunk has come.
use inp.Common.{
  ℕ, ◌+◌, ◌^◌, ◌≤◌, ◌<◌, ◌≡◌, ◌≢◌, ◌⊎◌, inl, inr, refl, sym, ◌∙◌, false, List, [], ◌∷◌, none,
  length, Bool-cases, All, arith,
}
use inp.Common.Bytes.{Bytes}
use inp.Common.Maps.{lookup}
use inp.Star.{chunk_size, Packet}
use inp.Star.Server.{Server, start, is_waiting, on_packet, collect}
use inp.Star.Entries.{IsChunk, length-Entries_all}
use inp.Star.Deliver.{
  zero_packet, chunk_packet, IsSent, Collected, start-Collected, on_packet-Collected,
  on_packet-zero, on_packet-store, store-Grows, Grows,
}

-- A packet is among those that come.
unfoldable pub Contains : Packet → List Packet → Type 0
Contains p [] = ⊥
Contains p (q ∷ packets) = (p ≡ q) ⊎ Contains p packets

-- Each chunk has come or is among the packets, and so is the packet that tells the size.
Awaits : Bytes → Server → List Packet → Type 0
Awaits comp s packets =
    ((s.comp_size ≡ length comp) ⊎ Contains (zero_packet comp) packets)
    × ((k : ℕ)
        → IsChunk comp k
        → (lookup k s.data_map ≢ none) ⊎ Contains (chunk_packet comp k) packets)

-- What a packet of the client leaves.
on_packet-keeps :
    (comp : Bytes) (p : Packet) (s : Server)
    → length comp < 2 ^ 32
    → IsSent comp p
    → (s.comp_size ≡ length comp → (on_packet p s).comp_size ≡ length comp)
      × ((j : ℕ) → lookup j s.data_map ≢ none → lookup j (on_packet p s).data_map ≢ none)
unfolding IsSent IsChunk Grows
on_packet-keeps comp p s small (inl e) =
    let zero = on_packet-zero comp s small in rw e ((λ h. zero.0), λ j there. rw zero.1 there)
on_packet-keeps comp p s small (inr (k, chunk, e)) =
    let grows = store-Grows k _ s (lookup k s.data_map) refl in
    rw (e, on_packet-store comp k s chunk.0) ((λ h. grows.0 ∙ h), grows.1)

on_packet-Awaits :
    (comp : Bytes) (p : Packet) (s : Server) (packets : List Packet)
    → length comp < 2 ^ 32
    → IsSent comp p
    → Awaits comp s (p ∷ packets)
    → Awaits comp (on_packet p s) packets
unfolding Awaits Contains Grows IsChunk
on_packet-Awaits comp p s packets small sent h =
    let keeps = on_packet-keeps comp p s small sent in
    (
      elim h.0 [
        | inl known ↦ inl (keeps.0 known)
        | inr (inl now) ↦ inl (rw (sym now) (on_packet-zero comp s small).0)
        | inr (inr later) ↦ inr later
      ],
      λ k chunk. elim (h.1 k chunk) [
        | inl there ↦ inl (keeps.1 k there)
        | inr (inl now) ↦
            let grows = store-Grows k _ s (lookup k s.data_map) refl in
            inl (rw (sym now, on_packet-store comp k s chunk.0) grows.2)
        | inr (inr later) ↦ inr later
      ],
    )

-- With all that has been awaited the loop does not wait.
complete :
    (comp : Bytes) (s : Server)
    → length comp + chunk_size < 2 ^ 32
    → Collected comp s
    → Awaits comp s []
    → is_waiting s ≡ false
unfolding Awaits Contains Collected is_waiting
complete comp s small h awaits =
    let known : s.comp_size ≡ length comp = elim awaits.0 [
      | inl e ↦ e
      | inr never ↦ absurd never
    ] in
    let all = λ (k : ℕ) (low : 1 ≤ k) (chunk : IsChunk comp k).
      elim (awaits.1 k chunk) as (λ x. lookup k s.data_map ≢ none) [
        | inl there ↦ there
        | inr never ↦ absurd never
      ] in
    let covers = length-Entries_all comp 1 s.data_map (omega arith) h.1 all in
    ground (arith, known, covers, h.2, small)

collect_complete :
    (comp : Bytes) (packets : List Packet) (s : Server)
    → length comp + chunk_size < 2 ^ 32
    → All (IsSent comp) packets
    → Collected comp s
    → Awaits comp s packets
    → is_waiting (collect packets s) ≡ false
unfolding collect
collect_complete comp [] s small sent h awaits = complete comp s small h awaits
collect_complete comp (p ∷ packets) s small sent h awaits = elim (Bool-cases (is_waiting s)) [
  | inl waits ↦ rw waits (
      collect_complete comp packets (on_packet p s) small sent.1
        (on_packet-Collected comp p s small sent.0 h)
        (on_packet-Awaits comp p s packets (omega arith) sent.0 awaits))
  | inr over ↦ rw over over
]

-- When the packet with the size and every chunk of the stream are among the packets that come, in any
-- order and with any copies, the loop ends.
pub collect-ends :
    (comp : Bytes) (packets : List Packet)
    → length comp + chunk_size < 2 ^ 32
    → All (IsSent comp) packets
    → Contains (zero_packet comp) packets
    → ((k : ℕ) → IsChunk comp k → Contains (chunk_packet comp k) packets)
    → is_waiting (collect packets start) ≡ false
unfolding Awaits
collect-ends comp packets small sent size chunks =
    collect_complete comp packets start small sent (start-Collected comp)
      (inr size, λ k chunk. inr (chunks k chunk))
