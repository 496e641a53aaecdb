-- ===== src/Transfer/Damage.antt =====
-- Damaged packets at the server of lab6/src/server.cpp: what the checksum finds, and what it does not
-- cover.
use inp.Common.{
  ℕ, ◌<◌, ◌≡◌, ◌≢◌, refl, ap, sym, ◌∙◌, true, false, [], ◌∷◌, ◌++◌, some, none, arith, ◌==◌, take,
  take-within, length, ◌≤◌, Bool-cases, inl, inr, All,
}
use inp.Common.Bytes.{Bytes}
use inp.Common.Maps.{lookup}
use inp.Transfer.{
  Packet, packet_crc, packet_head, calculate_crc, Store, initial_store, receive, resize, save_flg,
  file_bytes, is_empty,
}
use inp.Transfer.Crc.{IsByte, calculate_crc-append, calculate_crc_one_byte}
use inp.Transfer.Server.{Row, row_of, row_receive, row_expand, row_store, row_save}
use inp.Transfer.Delivered.{initial-Running, initial-row}
use inp.Transfer.Rows.{receive-row_same}

-- The bytes of a packet that its checksum covers.
abbrev pub covered : Packet → Bytes
covered p = packet_head p ++ p.packet_data

covered-crc : (p : Packet) → packet_crc p ≡ calculate_crc (covered p) 0xffff
unfolding packet_crc
covered-crc p = sym (calculate_crc-append (packet_head p) p.packet_data 0xffff)

-- A packet that had its checksum and has had one byte changed, in front of the checksum or in the
-- data, is dropped: the server ends its inner loop and keeps nothing of the packet.
pub receive_damaged :
    (p q : Packet) (xs ys : Bytes) (a b : ℕ) (s : Store)
    → covered p ≡ xs ++ a ∷ ys
    → covered q ≡ xs ++ b ∷ ys
    → All IsByte xs × All IsByte ys × IsByte a × IsByte b
    → a ≢ b
    → p.checksum ≡ packet_crc p
    → q.checksum ≡ p.checksum
    → receive q s ≡ (false, s)
unfolding receive
receive_damaged p q xs ys a b s hp hq (hx, hy, ha, hb) different fits same =
    elim (Bool-cases (q.checksum == packet_crc q)) [
      | inr bad ↦ rw bad refl
      | inl good ↦
          let k : q.checksum ≡ packet_crc q = ground arith in
          absurd (
            calculate_crc_one_byte xs ys a b 0xffff hx hy ha hb (omega arith) different (
              ap (λ t. calculate_crc t 0xffff) (sym hp)
              ∙ (sym (covered-crc p)
                  ∙ (sym fits
                      ∙ (sym same ∙ (k ∙ (covered-crc q ∙ ap (λ t. calculate_crc t 0xffff) hq)))))))
    ]

append-none : (xs : Bytes) → xs ++ [] ≡ xs
append-none [] = refl
append-none (x ∷ xs) = ap (λ t. x ∷ t) (append-none xs)

-- The one packet of a short file.
abbrev pub only_packet : ℕ → ℕ → ℕ → Bytes → Bytes → Packet
only_packet f c n bytes behind = record {
  file_number = f;
  packet_number = 0;
  total_packets = 1;
  checksum = c;
  length = n;
  packet_data = bytes;
  behind = behind;
}

only_packet-row :
    (f c n : ℕ) (bytes behind : Bytes) (r : Row)
    → (c == packet_crc (only_packet f c n bytes behind)) ≡ true
    → n ≤ length bytes
    → r ≡ record { expanded = false; saved = false; stored = []; datas = []; disk = none }
    → (row_receive (only_packet f c n bytes behind) r).1.disk ≡ some (take n bytes)
unfolding row_receive row_expand row_store row_save resize save_flg is_empty file_bytes
only_packet-row f c n bytes behind r good within fresh =
    rw (fresh, good) (ap some (append-none _ ∙ take-within n bytes behind within))

length-crc :
    (f c m n : ℕ) (bytes behind : Bytes)
    → packet_crc (only_packet f c m bytes behind) ≡ packet_crc (only_packet f c n bytes behind)
unfolding packet_crc
length-crc f c m n bytes behind = refl

-- The checksum does not cover the length. When the one packet of a short file was sent with any
-- length `m` and its checksum, and comes to the new server with another length `n`, at most the
-- number of its data bytes, the server takes it and writes as the file the first `n` bytes of the
-- data.
pub receive_length :
    (f c m n : ℕ) (bytes behind : Bytes)
    → f < 1000
    → n ≤ length bytes
    → c ≡ packet_crc (only_packet f c m bytes behind)
    → lookup f (receive (only_packet f c n bytes behind) initial_store).1.files
      ≡ some (take n bytes)
receive_length f c m n bytes behind hf within fits =
    let start = initial-Running (λ k. []) in
    let r = receive-row_same (only_packet f c n bytes behind) initial_store start.sound.sized hf in
    let good : (c == packet_crc (only_packet f c n bytes behind)) ≡ true =
      ground (arith, length-crc f c m n bytes behind) in
    ap (λ t. t.1.disk) (sym r)
    ∙ only_packet-row f c n bytes behind (row_of f initial_store) good within (initial-row f hf)
