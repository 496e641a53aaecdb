-- ===== src/Transfer/Resend.antt =====
-- The client of lab6/src/client.cpp and the server together: the packets of a file are the server's
-- packets, and an answered acknowledgement completes its file.
use inp.Common.{
  false-true, ℕ, zero, suc, ◌+◌, ◌/◌, ◌%◌, ◌^◌, ◌≤◌, ◌<◌, ◌≡◌, ◌≢◌, subst, refl, ap, sym, ◌∙◌, Bool,
  false, [], ◌∷◌, ◌++◌, arith, ◌==◌, get_or, take, drop, length-append, length, map, Bool-cases,
  inl, inr, All,
}
use inp.Common.Bytes.{Bytes}
use inp.Transfer.{Packet, Ack, packet_crc, packet_size}
use inp.Transfer.Files.{total_of, piece, Genuine}
use inp.Transfer.Complete.{IsHonest}
use inp.Transfer.Loop.{got}
use inp.Transfer.Arrival.{Arrives}
use inp.Transfer.Client.{fill, send_from, send_packets}

-- The packet that a checksum was computed of has it.
fill-crc :
    (file : Bytes) (i : ℕ) (p : Packet) → (fill file i p).checksum ≡ packet_crc (fill file i p)
unfolding fill packet_crc
fill-crc file i p = refl

take_front : (n : ℕ) (xs ys : Bytes) → length xs ≡ n → take n (xs ++ ys) ≡ xs
take_front zero [] ys h = refl
take_front zero (x ∷ xs) ys h = absurd (omega arith)
take_front (suc n) [] ys h = absurd (omega arith)
take_front (suc n) (x ∷ xs) ys h = ap (λ t. x ∷ t) (take_front n xs ys (omega arith))

fill-content :
    (file : Bytes) (i : ℕ) (p : Packet)
    → take (fill file i p).length (fill file i p).packet_data ≡ piece packet_size file i
unfolding fill
fill-content file i p =
    take_front (length (piece packet_size file i)) (piece packet_size file i) _ refl

fill-fits :
    (file : Bytes) (i : ℕ) (p : Packet)
    → (fill file i p).length ≤ length (fill file i p).packet_data
unfolding fill
fill-fits file i p =
    let read = piece packet_size file i in
    omega (arith, length-append read (drop (length read) p.packet_data))

module _ (files : ℕ → Bytes) (f : ℕ) (hf : f < 1000) (beyond : ℕ → Bool) (ack : Ack) where
  -- A packet of the file's loop.
  record IsCut (p : Packet) : Type 0 where
    name : p.file_number ≡ f
    total : p.total_packets ≡ total_of (files f)

  fill_number : (i j : ℕ) (p : Packet) → i ≡ j → (fill (files f) i p).packet_number ≡ j
  unfolding fill
  fill_number i j p e = e

  fill-IsCut : (i : ℕ) (p : Packet) → IsCut p → IsCut (fill (files f) i p)
  unfolding fill
  fill-IsCut i p c = record { name = c.name; total = c.total }

  fill-IsHonest :
      (i : ℕ) (p : Packet)
      → i < total_of (files f)
      → IsCut p
      → IsHonest files (got (fill (files f) i p))
  unfolding fill
  fill-IsHonest i p h c = (
    omega (arith, c.name),
    λ _.
        subst (λ k. Genuine (files k) (fill (files f) i p)) (sym c.name)
          (record {
            total = c.total;
            number = h;
            fits = fill-fits (files f) i p;
            content = fill-content (files f) i p;
          }),
  )

  send_from-IsHonest :
      (left i : ℕ) (p : Packet)
      → i + left ≡ total_of (files f)
      → IsCut p
      → All (IsHonest files) (map got (send_from beyond (files f) ack left i p))
  unfolding send_from
  send_from-IsHonest zero i p e c = tt
  send_from-IsHonest (suc left) i p e c =
      elim (Bool-cases (get_or ack.stored_packet i (beyond i))) [
        | inl bit ↦ rw (bit, send_from) (send_from-IsHonest left (i + 1) p (omega arith) c)
        | inr bit ↦
            rw (bit, send_from)
              (
                fill-IsHonest i p (omega arith) c,
                send_from-IsHonest left (i + 1) (fill (files f) i p) (omega arith)
                    (fill-IsCut i p c),
              )
      ]

  send_from-Arrives :
      (left i : ℕ) (p : Packet)
      → IsCut p
      → (j : ℕ) → i ≤ j
      → j < i + left
      → get_or ack.stored_packet j (beyond j) ≡ false
      → Arrives f j (map got (send_from beyond (files f) ack left i p))
  unfolding send_from
  send_from-Arrives zero i p c j a b h = absurd (omega arith)
  send_from-Arrives (suc left) i p c j a b h =
      elim (Bool-cases (get_or ack.stored_packet i (beyond i))) [
        | inl bit ↦
            let ne : i ≢ j = λ k. absurd (
              false-true
                (sym (sym bit ∙ (ap (λ x. get_or ack.stored_packet x (beyond x)) k ∙ h)))) in
            rw (bit, send_from) (send_from-Arrives left (i + 1) p c j (omega arith) (omega arith) h)
        | inr bit ↦
            rw (bit, send_from)
              (elim (Bool-cases (i == j)) [
                | inl e ↦ inl (
                  (fill-IsCut i p c).name,
                  fill_number i j p (ground arith),
                  fill-crc (files f) i p,
                )
                | inr e ↦ inr (
                    send_from-Arrives left (i + 1) (fill (files f) i p) (fill-IsCut i p c) j
                      (ground arith) (omega arith) h)
              ])
      ]

  -- The packets that the client sends.
  module _ (packet : Packet) (small : total_of (files f) < 2 ^ 16) where
    cut : Packet
    cut = record packet { total_packets = total_of (files f); file_number = f }

    send_packets-cut :
        send_packets beyond packet (files f) ack f
        ≡ send_from beyond (files f) ack (total_of (files f)) 0 cut
    unfolding send_packets cut
    send_packets-cut =
        let all : (length (files f) / packet_size + 1) % 2 ^ 16 ≡ total_of (files f) =
          omega arith in
        let name : f % 2 ^ 16 ≡ f = omega arith in
        λ i.
          send_from beyond (files f) ack (all i) 0
            (record packet { total_packets = all i; file_number = name i })

    cut-IsCut : IsCut cut
    unfolding cut
    cut-IsCut = record { name = refl; total = refl }

    -- For a file below number 1000 that is cut into fewer than 65536 packets, every packet that
    -- `send_file` sends is a piece of the file: it names the file, its number is below the number of
    -- pieces that it gives, and its bytes are those of that piece.
    pub send_packets-IsHonest :
        All (IsHonest files) (map got (send_packets beyond packet (files f) ack f))
    send_packets-IsHonest =
        rw send_packets-cut (send_from-IsHonest (total_of (files f)) 0 cut (omega arith) cut-IsCut)

    -- And a piece whose bit in the acknowledgement is false is sent, with a checksum that fits.
    pub send_packets-Arrives :
        (j : ℕ)
        → j < total_of (files f)
        → get_or ack.stored_packet j (beyond j) ≡ false
        → Arrives f j (map got (send_packets beyond packet (files f) ack f))
    send_packets-Arrives j a h =
        rw send_packets-cut
          (send_from-Arrives (total_of (files f)) 0 cut cut-IsCut j (omega arith) (omega arith) h)
