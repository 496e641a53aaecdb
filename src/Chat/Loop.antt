-- ===== src/Chat/Loop.antt =====
-- homework2/hw2_chat_server.cpp: one round of the main loop.
pub mod Slots
pub mod Safe
pub mod Stale
use mathlib.Core.Option
use inp.Common.{
  ℕ, zero, suc, ◌+◌, Bool, true, false, ◌||◌, List, [], ◌∷◌, ◌++◌, Option, none, some, ◌==◌, ltb,
  if◌then◌else◌, get_or, set, contains, replicate,
}
use inp.Common.Bytes.{Bytes, text}
use inp.Chat.Result.{Result, ok, ◌>>=◌}
use inp.Chat.State.{Server, new_server, Event, send, close}
use inp.Chat.Account.{add_socket, remove_socket}
use inp.Chat.Message.{pop_back}
use inp.Chat.Dispatch.{Outcome, handle_command}

abbrev pub max_clients : ℕ
max_clients = 1005

-- `Server server` beside `client_socket`, in which 0 is a free entry, and all that was sent.
pub record Host : Type 0 where
  pub server : Server
  pub client_socket : List ℕ
  pub sent : List Event

abbrev pub new_host : ℕ → Host
new_host size = record { server = new_server; client_socket = replicate size 0; sent = [] }

-- The highest descriptor, for `select`, and the sockets that `select` watches.
unfoldable pub highest : ℕ → List ℕ → ℕ
highest max_sd [] = max_sd
highest max_sd (sd ∷ sds) = highest (if ltb max_sd sd then sd else max_sd) sds

unfoldable pub sockets : List ℕ → List ℕ
sockets [] = []
sockets (sd ∷ sds) = if ltb 0 sd then sd ∷ sockets sds else sockets sds

unfoldable pub readfds : Host → ℕ → List ℕ
unfolding sockets
readfds h server_fd = sockets h.client_socket ++ (server_fd ∷ h.server.master_set)

unfoldable pub max_socket : Host → ℕ → ℕ
unfolding highest
max_socket h server_fd = highest server_fd h.client_socket

-- The loop that puts a new socket into the first free entry; `none` where there is none.
unfoldable pub take_slot : ℕ → List ℕ → Option (List ℕ)
take_slot fd [] = none
take_slot fd (x ∷ xs) = if x == 0 then some (fd ∷ xs) else Option.map (◌∷◌ x) (take_slot fd xs)

abbrev pub greeting : Bytes
greeting =
    text
      "*********************************\n** Welcome to the Chat server. **\n*********************************\n% "

abbrev pub add_client : Host → ℕ → Option (List ℕ) → Host
add_client h fd none = h
add_client h fd (some table) = record h { server = add_socket h.server fd; client_socket = table }

abbrev pub greet : Host → ℕ → Host
greet h fd = record h { sent = h.sent ++ send fd greeting ∷ [] }

-- A connection that `accept` has given the descriptor `fd`.
unfoldable pub accept_client : Host → ℕ → Host
accept_client h fd = add_client (greet h fd) fd (take_slot fd h.client_socket)

-- What `read` gives: 0, a negative number, or bytes.
pub data Read : Type 0 where
  closed failed : Read
  received : ℕ → Bytes → Read

-- The host behind a command.
abbrev pub settle : Host → Result Outcome → Result Host
settle h m = do
  out ← m
  ok (record {
    server = out.server;
    client_socket = out.client_socket_list;
    sent = h.sent ++ out.events;
  })

-- A socket in entry `i` that is ready. `received` has a first byte, so its message is not empty.
unfoldable pub serve_socket : Host → ℕ → ℕ → Read → Result Host
serve_socket h i sd closed = ok (record {
  server = remove_socket h.server sd;
  client_socket = set h.client_socket i 0;
  sent = h.sent ++ close sd ∷ [];
})
serve_socket h i sd failed = ok h
serve_socket h i sd (received byte bytes) =
    settle h (handle_command h.server sd (pop_back (byte ∷ bytes)) h.client_socket)

abbrev pub serve_if : Host → ℕ → ℕ → Option Read → Result Host
serve_if h i sd none = ok h
serve_if h i sd (some r) = serve_socket h i sd r

-- One entry of the table, in which a 0 is passed over.
unfoldable pub serve_slot : Host → ℕ → (ℕ → Option Read) → Result Host
serve_slot h i ready =
    let sd = get_or h.client_socket i 0 in if sd == 0 then ok h else serve_if h i sd (ready sd)

-- The entries from `i` on.
unfoldable pub serve_slots : ℕ → ℕ → (ℕ → Option Read) → Host → Result Host
serve_slots zero i ready h = ok h
serve_slots (suc left) i ready h = serve_slot h i ready >>= serve_slots left (i + 1) ready

abbrev pub accept_if : Host → Option ℕ → Host
accept_if h none = h
accept_if h (some fd) = accept_client h fd

-- A round: `accepted` is the new connection, if one waits, and `ready` what each ready socket reads.
unfoldable pub turn : ℕ → Host → Option ℕ → (ℕ → Option Read) → Result Host
unfolding serve_slots
turn size h accepted ready = serve_slots size 0 ready (accept_if h accepted)
