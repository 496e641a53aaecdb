-- ===== src/Chat/Message.antt =====
-- homework2/server.cpp: the handlers that write into a chat room.
use inp.Common.{
  ℕ, ◌-◌, not, List, [], ◌∷◌, ◌++◌, Option, none, some, ◌==◌, ltb, if◌then◌else◌, length, take,
  drop,
}
use inp.Common.Maps.{lookup}
use inp.Common.Bytes.{Bytes, text, bytes_eq}
use inp.Chat.Result.{Result, ok, ◌>>=◌}
use inp.Common.Text.{to_string}
use inp.Chat.Filter.{censor}
use inp.Chat.State.{
  ChatRoom, Server, Reply, reply, is_logged_in, client_at, room_at, set_room, touch_room, broadcast,
}
use inp.Chat.Account.{please_login}
use inp.Chat.Room.{show_message}

-- `message += tokens[i] + " "`
unfoldable pub spaced : List Bytes → Bytes
spaced [] = []
spaced (word ∷ words) = word ++ (32 ∷ spaced words)

unfoldable pub pop_back : Bytes → Bytes
pop_back s = take (length s - 1) s

abbrev pub pin_at : Server → ℕ → List Bytes → Option ℕ → Result Reply
pin_at s fd words none = reply s (text "You are not in the chat room.\n")
pin_at s fd words (some n) = do
  message ← censor (room_at s n).filter_list (pop_back (spaced words))
  p ← client_at s fd
  ok (record {
    server =
        set_room s n
          (record (room_at s n) { pinned_user = (s.heap p).username; pinned_text = message });
    response = text "Pin -> " ++ show_message (s.heap p).username message;
    events =
        broadcast fd (text "Pin -> " ++ show_message (s.heap p).username message)
          (room_at s n).clients;
  })

unfoldable pub set_pin_message : Server → List Bytes → ℕ → Result Reply
set_pin_message s tokens fd =
    if ltb (length tokens) 2
    then reply s (text "Usage: /pin <message>\n")
    else if not (is_logged_in s fd)
    then please_login s
    else pin_at s fd (drop 1 tokens) (lookup fd s.client_in_chat_room)

abbrev pub unpin_at : Server → Option ℕ → Result Reply
unpin_at s none = reply s (text "You are not in the chat room.\n")
unpin_at s (some n) =
    if bytes_eq (room_at s n).pinned_user []
    then reply (touch_room s n) (text "No pin message in chat room " ++ (to_string n ++ text "\n"))
    else reply (set_room s n (record (room_at s n) { pinned_user = []; pinned_text = [] })) []

unfoldable pub delete_pin_message : Server → List Bytes → ℕ → Result Reply
delete_pin_message s tokens fd =
    if not (length tokens == 1)
    then reply s (text "Usage: /delete-pin\n")
    else if not (is_logged_in s fd)
    then please_login s
    else unpin_at s (lookup fd s.client_in_chat_room)

abbrev pub add_record : ChatRoom → Bytes → Bytes → ChatRoom
add_record room username message = record room {
  history = room.history ++ record { username = username; message = message } ∷ [];
}

abbrev pub send_at : Server → ℕ → List Bytes → Option ℕ → Result Reply
send_at s fd words none = reply s (text "You are not in the chat room.\n")
send_at s fd words (some n) = do
  message ← censor (room_at s n).filter_list (pop_back (spaced words))
  p ← client_at s fd
  ok (record {
    server = set_room s n (add_record (room_at s n) (s.heap p).username message);
    response = show_message (s.heap p).username message;
    events = broadcast fd (show_message (s.heap p).username message) (room_at s n).clients;
  })

unfoldable pub send_message : Server → List Bytes → ℕ → Result Reply
send_message s tokens fd = send_at s fd tokens (lookup fd s.client_in_chat_room)
