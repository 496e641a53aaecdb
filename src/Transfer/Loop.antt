-- ===== src/Transfer/Loop.antt =====
-- The two loops of `main` in lab6/src/server.cpp around the body of the inner one: what the server
-- does with each result of `recvfrom`, and the acknowledgements it sends.
use inp.Common.{
  ℕ, zero, suc, ◌+◌, ◌-◌, Bool, false, List, [], ◌∷◌, ◌==◌, if◌then◌else◌, get_or, replicate,
}
use inp.Transfer.{Packet, Ack, Store, stored_of, is_empty, receive, set_window, max_packets, finish}

-- Where `main` stands: at the `recvfrom` of the outer loop, at that of the inner one, or in the loop
-- that sends FINISH for ever.
pub data Place : Type 0 where
  outer : Place
  inner : Place
  finished : Place

-- What `recvfrom` gives: less than 0, 0, or a packet.
pub data Received : Type 0 where
  timed_out : Received
  no_bytes : Received
  got : Packet → Received

-- `stored_packet` of an acknowledgement, from bit `j` on. A row that is neither empty nor long enough
-- is read out of range: `beyond` says what stands there.
unfoldable pub ack_bits : (ℕ → Bool) → List Bool → ℕ → ℕ → List Bool
ack_bits beyond row zero j = []
ack_bits beyond row (suc left) j =
    (if is_empty row then false else get_or row j (beyond j)) ∷ ack_bits beyond row left (j + 1)

unfoldable pub ack_of : (ℕ → Bool) → Store → ℕ → Ack
unfolding ack_bits
ack_of beyond s file = record {
  file_number = file;
  stored_packet = ack_bits beyond (stored_of s file) max_packets 0;
}

-- The acknowledgements for the files of the window from `i` on.
unfoldable pub acks_from : (ℕ → Bool) → Store → ℕ → ℕ → List Ack
unfolding ack_of
acks_from beyond s zero i = []
acks_from beyond s (suc left) i =
    let rest = acks_from beyond s left (i + 1) in
    if get_or s.file_saved i false then rest else ack_of beyond s i ∷ rest

abbrev finish_ack : Ack
finish_ack = record { file_number = finish; stored_packet = replicate max_packets false }

-- The outer loop after the inner one.
unfoldable pub send_acks : (ℕ → Bool) → Store → Place × Store × List Ack
unfolding acks_from
send_acks beyond s =
    let s' = set_window s in
    if s'.start_file == s'.end_file
    then (finished, s', finish_ack ∷ [])
    else (outer, s', acks_from beyond s' (s'.end_file - s'.start_file) s'.start_file)

unfoldable pub on_packet : (ℕ → Bool) → Packet → Store → Place × Store × List Ack
unfolding send_acks
on_packet beyond packet s =
    let (again, s') = receive packet s in if again then (inner, s', []) else send_acks beyond s'

-- The server from one `recvfrom` to the next.
unfoldable pub serve : (ℕ → Bool) → Received → Place × Store → Place × Store × List Ack
unfolding on_packet
serve beyond received (finished, s) = (finished, s, [])
serve beyond timed_out (outer, s) = (outer, s, [])
serve beyond no_bytes (outer, s) = send_acks beyond s
serve beyond (got packet) (outer, s) = on_packet beyond packet s
serve beyond timed_out (inner, s) = send_acks beyond s
serve beyond no_bytes (inner, s) = send_acks beyond s
serve beyond (got packet) (inner, s) = on_packet beyond packet s

-- The server over a list of results.
unfoldable pub run : (ℕ → Bool) → List Received → Place × Store → Place × Store
unfolding serve
run beyond [] (place, s) = (place, s)
run beyond (received ∷ rest) (place, s) =
    let (place', s', acks) = serve beyond received (place, s) in run beyond rest (place', s')
