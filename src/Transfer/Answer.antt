-- ===== src/Transfer/Answer.antt =====
-- An acknowledgement of lab6/src/server.cpp and the packets that lab6/src/client.cpp answers with.
use inp.Common.{
  ℕ, zero, suc, ◌+◌, ◌≤◌, ◌<◌, ◌^◌, ◌≡◌, refl, ap, ◌∙◌, Bool, false, List, [], ◌∷◌, some, arith,
  if◌then◌else◌, get_or, length, map, Bool-cases, ◌⊎◌, inl, inr, All,
}
use inp.Common.Bytes.{Bytes}
use inp.Common.Maps.{lookup}
use inp.Transfer.{Packet, is_empty, stored_of, max_packets}
use inp.Transfer.Server.{Row, row_of}
use inp.Transfer.Files.{total_of, RowOk, Has}
use inp.Transfer.Filling.{is_empty_none}
use inp.Transfer.Complete.{IsHonest}
use inp.Transfer.Loop.{Received, got, run, ack_bits, ack_of}
use inp.Transfer.Arrival.{run-Running, run-keeps}
use inp.Transfer.Delivered.{after, all-disk, running}
use inp.Transfer.Client.{send_packets}
use inp.Transfer.Resend.{send_packets-IsHonest, send_packets-Arrives}

get_or-ack_bits :
    (beyond : ℕ → Bool) (row : List Bool) (left i k : ℕ) (d : Bool)
    → k < left
    → get_or (ack_bits beyond row left i) k d
      ≡ (if is_empty row then false else get_or row (i + k) (beyond (i + k)))
unfolding ack_bits
get_or-ack_bits beyond row zero i k d h = absurd (omega arith)
get_or-ack_bits beyond row (suc left) i zero d h =
    let e : i ≡ i + 0 = omega arith in
    ap (λ j. if is_empty row then false else get_or row j (beyond j)) e
get_or-ack_bits beyond row (suc left) i (suc k) d h =
    let e : i + 1 + k ≡ i + suc k = omega arith in
    get_or-ack_bits beyond row left (i + 1) k d (omega arith)
    ∙ ap (λ j. if is_empty row then false else get_or row j (beyond j)) e

get_or_inside :
    (row : List Bool) (i : ℕ) (c d : Bool) → i < length row → get_or row i c ≡ get_or row i d
get_or_inside [] i c d h = absurd (omega arith)
get_or_inside (x ∷ row) zero c d h = refl
get_or_inside (x ∷ row) (suc i) c d h = get_or_inside row i c d (omega arith)

-- What a bit of an acknowledgement says of a file that is not saved.
bit_of :
    (file : Bytes) (r : Row) (beyond : ℕ → Bool) (i : ℕ)
    → RowOk file r
    → r.saved ≡ false
    → i < total_of file
    → ((if is_empty r.stored then false else get_or r.stored i (beyond i)) ≡ false) ⊎ Has i r
bit_of file r beyond i o unsaved h = elim (Bool-cases (is_empty r.stored)) [
  | inl e ↦ inl (rw e refl)
  | inr e ↦ elim o [
    | inl fresh ↦ absurd (ground (arith, is_empty_none r.stored fresh.stored))
    | inr (inl (part, _)) ↦ elim (Bool-cases (get_or r.stored i false)) [
      | inl bit ↦ inr (inr bit)
      | inr bit ↦
          inl (rw e (get_or_inside r.stored i (beyond i) false (omega (arith, part.stored)) ∙ bit))
    ]
    | inr (inr done) ↦ absurd (ground (arith, done.saved))
  ]
]

module _ (files : ℕ → Bytes) (beyond stale : ℕ → Bool) (packet : Packet) (inputs : List Received)
    (honest : All (IsHonest files) inputs) (f : ℕ) (hf : f < 1000)
    (small : total_of (files f) ≤ max_packets)
    (unsaved : get_or (after beyond inputs).1.file_saved f false ≡ false) where
  ack_bit :
      (i : ℕ)
      → i < max_packets
      → get_or (ack_of beyond (after beyond inputs).1 f).stored_packet i (stale i) ≡ (
          if is_empty (stored_of (after beyond inputs).1 f)
          then false
          else get_or (stored_of (after beyond inputs).1 f) i (beyond i))
  unfolding ack_of
  ack_bit i h =
      let e : 0 + i ≡ i = omega arith in
      get_or-ack_bits beyond (stored_of (after beyond inputs).1 f) max_packets 0 i (stale i) h
      ∙ ap
          (λ j.
            if is_empty (stored_of (after beyond inputs).1 f)
            then false
            else get_or (stored_of (after beyond inputs).1 f) j (beyond j))
          e

  -- After any run of the server on honest datagrams, take a file that is not saved and has at most 48
  -- pieces. If the client gets the server's acknowledgement of the file and its packets reach the
  -- server, the file is on the disk.
  pub answer-disk :
      lookup f
        (run beyond
          (map got
            (send_packets stale packet (files f) (ack_of beyond (after beyond inputs).1 f) f))
          (after beyond inputs)).1.files
      ≡ some (files f)
  answer-disk =
      let r = running files beyond inputs honest f hf in
      let ack = ack_of beyond (after beyond inputs).1 f in
      let wide : total_of (files f) < 2 ^ 16 = omega arith in
      let cut = send_packets-IsHonest files f hf stale ack packet wide in
      let sent = map got (send_packets stale packet (files f) ack f) in
      let end =
        run-Running files beyond sent (after beyond inputs).0 (after beyond inputs).1 cut r in
      all-disk (files f) (row_of f (run beyond sent (after beyond inputs)).1) (end.sound.rows f hf)
        λ i h.
          run-keeps files beyond sent (after beyond inputs).0 (after beyond inputs).1 cut r f i hf
            (elim (bit_of (files f) (row_of f (after beyond inputs).1) beyond i (r.sound.rows f hf)
              unsaved h) [
                | inr has ↦ inl has
                | inl bit ↦ inr (
                    send_packets-Arrives files f hf stale ack packet wide i h
                      (ack_bit i (omega arith) ∙ bit))
              ])
