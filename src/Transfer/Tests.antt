-- ===== src/Transfer/Tests.antt =====
-- Runs of lab6/src on a short file, with a lost, a damaged and a repeated packet.
use inp.Common.{
  ℕ, zero, suc, ◌<◌, ◌≡◌, ◌↔◌, ◌⊎◌, inl, inr, refl, Bool, true, false, List, [], ◌∷◌, some, none,
  arith, ◌==◌, if◌then◌else◌, get_or, take, map, replicate, All,
}
use inp.Common.Bytes.{Bytes, text}
use inp.Common.Maps.{lookup}
use inp.Transfer.{Packet, Ack, packet_crc, calculate_crc, receive, initial_store}
use inp.Transfer.Crc.{IsByte}
use inp.Transfer.Files.{total_of}
use inp.Transfer.Complete.{IsHonest}
use inp.Transfer.Loop.{Received, timed_out, no_bytes, got, send_acks, finished, ack_of, run, serve}
use inp.Transfer.Arrival.{Arrives}
use inp.Transfer.Delivered.{after, after-saved, after-Arrives, send_acks-finish}
use inp.Transfer.Client.{send_packets}
use inp.Transfer.Answer.{answer-disk}
use inp.Transfer.Damage.{only_packet, receive_damaged, receive_length}

crc_runs : calculate_crc (text "123456789") 0xffff ≡ 0x4b37
unfolding calculate_crc text
crc_runs = refl

abbrev short_files : ℕ → Bytes
short_files f = if f == 3 then b'h' ∷ b'i' ∷ [] else []

abbrev unread : ℕ → Bool
unread i = true

-- The packet of file 3, in a buffer of four bytes.
abbrev good_packet : Packet
good_packet =
    only_packet 3 (packet_crc (only_packet 3 0 2 (b'h' ∷ b'i' ∷ 0 ∷ 0 ∷ []) [])) 2
      (b'h' ∷ b'i' ∷ 0 ∷ 0 ∷ []) []

-- It with its first data byte changed.
abbrev bad_packet : Packet
bad_packet =
    only_packet 3 (packet_crc (only_packet 3 0 2 (b'h' ∷ b'i' ∷ 0 ∷ 0 ∷ []) [])) 2
      (b'H' ∷ b'i' ∷ 0 ∷ 0 ∷ []) []

good-IsHonest : IsHonest short_files (got good_packet)
good-IsHonest = (
  omega arith,
  λ _. record { total = refl; number = omega arith; fits = omega arith; content = refl },
)

abbrev story : List Received
story = timed_out ∷ got good_packet ∷ no_bytes ∷ got good_packet ∷ []

story-IsHonest : All (IsHonest short_files) story
story-IsHonest = (tt, (good-IsHonest, (tt, (good-IsHonest, tt))))

after-saved_example :
    ((get_or (after unread story).1.file_saved 3 false ≡ true)
      × (lookup 3 (after unread story).1.files ≡ some (short_files 3)))
    ⊎ ((get_or (after unread story).1.file_saved 3 false ≡ false)
        × (lookup 3 (after unread story).1.files ≡ none))
after-saved_example = after-saved short_files unread story story-IsHonest 3 (omega arith)

good_packet-fits : good_packet.checksum ≡ packet_crc good_packet
unfolding packet_crc
good_packet-fits = refl

nothing_saved : get_or (after unread (timed_out ∷ [])).1.file_saved 3 false ≡ false
unfolding run serve initial_store
nothing_saved = refl

head_bytes : All IsByte (3 ∷ 0 ∷ 0 ∷ 0 ∷ 1 ∷ 0 ∷ [])
head_bytes =
    (omega arith, (omega arith, (omega arith, (omega arith, (omega arith, (omega arith, tt))))))

tail_bytes : All IsByte (b'i' ∷ 0 ∷ 0 ∷ [])
tail_bytes = (omega arith, (omega arith, (omega arith, tt)))

all_arrive : (i : ℕ) → i < total_of (short_files 3) → Arrives 3 i story
unfolding packet_crc
all_arrive zero h = inr (inl (refl, refl, refl))
all_arrive (suc i) h = absurd (omega arith)

after-Arrives_example : lookup 3 (after unread story).1.files ≡ some (short_files 3)
after-Arrives_example =
    after-Arrives short_files unread story story-IsHonest 3 (omega arith) all_arrive

send_acks-finish_example :
    ((send_acks unread (after unread story).1).0 ≡ finished)
    ↔ ((f : ℕ) → f < 1000 → lookup f (after unread story).1.files ≡ some (short_files f))
send_acks-finish_example = send_acks-finish short_files unread story story-IsHonest

lossy-IsHonest : All (IsHonest short_files) (timed_out ∷ [])
lossy-IsHonest = (tt, tt)

answer-disk_example :
    lookup 3
      (run unread
        (map got (
          send_packets unread good_packet
            (short_files 3)
            (ack_of unread (after unread (timed_out ∷ [])).1 3)
            3))
        (after unread (timed_out ∷ []))).1.files
    ≡ some (short_files 3)
answer-disk_example =
    answer-disk short_files unread unread good_packet (timed_out ∷ []) lossy-IsHonest 3
      (omega arith) (omega arith) nothing_saved

receive_damaged_example : receive bad_packet initial_store ≡ (false, initial_store)
receive_damaged_example =
    receive_damaged good_packet bad_packet (3 ∷ 0 ∷ 0 ∷ 0 ∷ 1 ∷ 0 ∷ []) (b'i' ∷ 0 ∷ 0 ∷ []) b'h'
      b'H' initial_store refl refl (head_bytes, tail_bytes, omega arith, omega arith) (omega arith)
      good_packet-fits refl

abbrev first_ack : Ack
first_ack = record { file_number = 3; stored_packet = replicate 48 false }

receive_length_example :
    lookup 3
      (receive
        (only_packet 3
          (packet_crc (only_packet 3 0 2 (b'h' ∷ b'i' ∷ 0 ∷ 0 ∷ []) []))
          4
          (b'h' ∷ b'i' ∷ 0 ∷ 0 ∷ [])
          [])
        initial_store).1.files
    ≡ some (take 4 (b'h' ∷ b'i' ∷ 0 ∷ 0 ∷ []))
receive_length_example =
    receive_length 3 (packet_crc (only_packet 3 0 2 (b'h' ∷ b'i' ∷ 0 ∷ 0 ∷ []) [])) 2 4
      (b'h' ∷ b'i' ∷ 0 ∷ 0 ∷ []) [] (omega arith) (omega arith) good_packet-fits
