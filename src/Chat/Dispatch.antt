-- ===== src/Chat/Dispatch.antt =====
-- homework2/server.cpp: `handleCommand`.
use Prim.Native.String.{String}
use inp.Common.{
  ℕ, Bool, true, false, List, [], ◌∷◌, ◌++◌, Option, none, some, ◌==◌, if◌then◌else◌, get_or,
}
use inp.Common.Maps.{lookup}
use inp.Common.Bytes.{Bytes, text, bytes_eq}
use inp.Chat.Result.{Result, ok, ◌>>=◌}
use inp.Common.Text.{tokenize}
use inp.Chat.State.{Server, Event, send, Reply, reply, word_at}
use inp.Chat.Account.{
  register_user, login_user, logout_user, exit_user, get_whoami, set_client_status, list_user,
}
use inp.Chat.Room.{
  enter_chat_room, list_chat_room, close_chat_room, exit_chat_room, list_user_in_chat_room,
}
use inp.Chat.Message.{set_pin_message, delete_pin_message, send_message}

-- The server, the table of sockets, and what was sent.
pub record Outcome : Type 0 where
  pub server : Server
  pub client_socket_list : List ℕ
  pub events : List Event

abbrev pub in_room : Option ℕ → Bool
in_room none = false
in_room (some n) = true

-- `send(client_socket, response)` at the end, behind what the handler has sent.
abbrev pub answer : ℕ → List ℕ → Bytes → Result Reply → Result Outcome
answer fd table suffix m = do
  r ← m
  ok (record {
    server = r.server;
    client_socket_list = table;
    events = r.events ++ send fd (r.response ++ suffix) ∷ [];
  })

-- `tokens[0] == name`
abbrev pub is_name : String → List Bytes → Bool
is_name name tokens = bytes_eq (word_at tokens 0) (text name)

-- A command of a client that is in a chat room.
unfoldable pub room_command : Server → List Bytes → ℕ → Result Reply
room_command s tokens fd =
    if is_name "/pin" tokens
    then set_pin_message s tokens fd
    else if is_name "/delete-pin" tokens
    then delete_pin_message s tokens fd
    else if is_name "/exit-chat-room" tokens
    then exit_chat_room s tokens fd
    else if is_name "/list-user" tokens
    then list_user_in_chat_room s tokens fd
    else if get_or (word_at tokens 0) 0 0 == b'/'
    then reply s (text "Error: Unknown command\n")
    else send_message s tokens fd

abbrev pub prompt : Bytes
prompt = text "% "

-- `exit`, whose handler also frees the client's entry in the table.
unfoldable pub exit_command : Server → List Bytes → ℕ → List ℕ → Result Outcome
exit_command s tokens fd table = do r ← exit_user s tokens fd table; answer fd r.1 prompt (ok r.0)

-- A command of a client that is in no chat room, with what is sent behind the response.
unfoldable pub plain_command : Server → List Bytes → ℕ → List ℕ → Result Outcome
plain_command s tokens fd table =
    if is_name "register" tokens
    then answer fd table prompt (register_user s tokens)
    else if is_name "login" tokens
    then answer fd table prompt (login_user s tokens fd)
    else if is_name "logout" tokens
    then answer fd table prompt (logout_user s tokens fd)
    else if is_name "exit" tokens
    then exit_command s tokens fd table
    else if is_name "whoami" tokens
    then answer fd table prompt (get_whoami s tokens fd)
    else if is_name "set-status" tokens
    then answer fd table prompt (set_client_status s tokens fd)
    else if is_name "list-user" tokens
    then answer fd table prompt (list_user s tokens fd)
    else if is_name "enter-chat-room" tokens
    then answer fd table [] (enter_chat_room s tokens fd)
    else if is_name "list-chat-room" tokens
    then answer fd table prompt (list_chat_room s tokens fd)
    else if is_name "close-chat-room" tokens
    then answer fd table prompt (close_chat_room s tokens fd)
    else answer fd table [] (reply s (text "Error: Unknown command\n% "))

abbrev pub run_tokens : Server → List Bytes → ℕ → List ℕ → Result Outcome
run_tokens s [] fd table =
    if in_room (lookup fd s.client_in_chat_room)
    then answer fd table [] (reply s [])
    else answer fd table [] (reply s prompt)
run_tokens s (word ∷ words) fd table =
    if in_room (lookup fd s.client_in_chat_room)
    then answer fd table [] (room_command s (word ∷ words) fd)
    else plain_command s (word ∷ words) fd table

unfoldable pub handle_command : Server → ℕ → Bytes → List ℕ → Result Outcome
handle_command s fd command table = run_tokens s (tokenize command) fd table
