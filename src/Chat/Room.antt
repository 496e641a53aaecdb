-- ===== src/Chat/Room.antt =====
-- homework2/server.cpp: the handlers that enter, list, close and leave chat rooms.
use inp.Common.{
  ℕ, ◌-◌, ◌||◌, not, List, [], ◌∷◌, ◌++◌, Option, none, some, ◌==◌, ltb, if◌then◌else◌, length,
  drop, erase_first,
}
use inp.Common.Maps.{Map, lookup, insert, erase}
use inp.Common.Bytes.{Bytes, text, bytes_eq}
use inp.Chat.Result.{Result, ok, err, uncaught, ◌>>=◌}
use inp.Common.Text.{pos, negsuc, Parsed, invalid, out_of_range, number, stoi, to_string}
use inp.Chat.State.{
  ChatRecord, ChatRoom, new_room, Server, Reply, reply, word_at, is_logged_in, client_at, room_at,
  set_room, touch_room, broadcast,
}
use inp.Chat.Account.{please_login, sort_users, show_users}

-- `"[" + username + "]: " + message + "\n"`
unfoldable pub show_message : Bytes → Bytes → Bytes
show_message username message = text "[" ++ (username ++ (text "]: " ++ (message ++ text "\n")))

unfoldable pub show_history : List ChatRecord → Bytes
unfolding show_message
show_history [] = []
show_history (r ∷ rs) = show_message r.username r.message ++ show_history rs

-- The records from `max(0, size - 10)` on.
unfoldable pub latest : List ChatRecord → List ChatRecord
latest history = drop (length history - 10) history

unfoldable pub show_pin : ChatRoom → Bytes
unfolding show_message
show_pin room =
    if bytes_eq room.pinned_user []
    then []
    else text "Pin -> " ++ show_message room.pinned_user room.pinned_text

unfoldable pub show_welcome : ℕ → Bytes → Bytes
show_welcome n owner =
    text "Welcome to the public chat room.\nRoom number: "
    ++ (to_string n ++ (text "\nOwner: " ++ (owner ++ text "\n")))

unfoldable pub join_room : Server → ℕ → ℕ → ChatRoom → Server
unfolding set_room
join_room s fd n room = record (set_room s n (record room { clients = room.clients ++ fd ∷ [] })) {
  client_in_chat_room = insert fd n s.client_in_chat_room;
}

-- The two ends of `enterChatRoom`: a new room, or one that is there.
abbrev pub enter_at : Server → ℕ → ℕ → Bytes → Option ChatRoom → Result Reply
enter_at s fd n username none =
    reply (join_room s fd n (new_room username)) (show_welcome n username)
enter_at s fd n username (some room) = ok (record {
  server = join_room s fd n room;
  response = show_welcome n room.owner ++ (show_history (latest room.history) ++ show_pin room);
  events = broadcast fd (username ++ text " had enter the chat room.\n") (room.clients ++ fd ∷ []);
})

abbrev pub enter_number : Server → ℕ → Bytes → Parsed → Result Reply
enter_number s fd word invalid = reply s (text "Number " ++ (word ++ text " is not valid.\n% "))
enter_number s fd word out_of_range = err uncaught
enter_number s fd word (number (negsuc n)) =
    reply s (text "Number " ++ (word ++ text " is not valid.\n% "))
enter_number s fd word (number (pos n)) =
    if ltb n 1 || ltb 100 n
    then reply s (text "Number " ++ (word ++ text " is not valid.\n% "))
    else do p ← client_at s fd; enter_at s fd n (s.heap p).username (lookup n s.chat_rooms)

unfoldable pub enter_chat_room : Server → List Bytes → ℕ → Result Reply
enter_chat_room s tokens fd =
    if not (length tokens == 2)
    then reply s (text "Usage: enter-chat-room <number>\n% ")
    else if not (is_logged_in s fd)
    then reply s (text "Please login first.\n% ")
    else enter_number s fd (word_at tokens 1) (stoi (word_at tokens 1))

-- `std::sort` of the room numbers.
unfoldable pub insert_number : ℕ → List ℕ → List ℕ
insert_number n [] = n ∷ []
insert_number n (m ∷ ms) = if ltb m n then m ∷ insert_number n ms else n ∷ m ∷ ms

unfoldable pub sort_numbers : List ℕ → List ℕ
unfolding insert_number
sort_numbers [] = []
sort_numbers (n ∷ ns) = insert_number n (sort_numbers ns)

abbrev pub numbers : Map ChatRoom → List ℕ
numbers [] = []
numbers ((n, room) ∷ rooms) = n ∷ numbers rooms

unfoldable pub show_rooms : Server → List ℕ → Bytes
show_rooms s [] = []
show_rooms s (n ∷ ns) =
    (room_at s n).owner ++ (text " " ++ (to_string n ++ (text "\n" ++ show_rooms s ns)))

unfoldable pub list_chat_room : Server → List Bytes → ℕ → Result Reply
list_chat_room s tokens fd =
    if not (length tokens == 1)
    then reply s (text "Usage: list-chat-room\n")
    else if not (is_logged_in s fd)
    then please_login s
    else reply s (show_rooms s (sort_numbers (numbers s.chat_rooms)))

-- `for (int client : clients) client_in_chat_room.erase(client)`
unfoldable pub erase_all : List ℕ → Map ℕ → Map ℕ
erase_all [] m = m
erase_all (client ∷ clients) m = erase_all clients (erase client m)

unfoldable pub drop_room : Server → ℕ → ChatRoom → Server
unfolding erase_all
drop_room s n room = record s {
  client_in_chat_room = erase_all room.clients s.client_in_chat_room;
  chat_rooms = erase n s.chat_rooms;
}

abbrev pub not_there : Server → Bytes → Result Reply
not_there s word = reply s (text "Chat room " ++ (word ++ text " does not exist.\n"))

abbrev pub close_owned : Server → ℕ → Bytes → ℕ → Bytes → ChatRoom → Result Reply
close_owned s fd word n username room =
    if not (bytes_eq room.owner username)
    then reply s (text "Only the owner can close this chat room.\n")
    else ok (record {
      server = drop_room s n room;
      response = text "Chat room " ++ (word ++ text " was closed.\n");
      events = broadcast fd (text "Chat room " ++ (word ++ text " was closed.\n% ")) room.clients;
    })

abbrev pub close_at : Server → ℕ → Bytes → ℕ → Option ChatRoom → Result Reply
close_at s fd word n none = not_there s word
close_at s fd word n (some room) = do
  p ← client_at s fd
  close_owned s fd word n (s.heap p).username room

-- No room has a negative number.
abbrev pub close_number : Server → ℕ → Bytes → Parsed → Result Reply
close_number s fd word invalid = not_there s word
close_number s fd word out_of_range = err uncaught
close_number s fd word (number (negsuc n)) = not_there s word
close_number s fd word (number (pos n)) = close_at s fd word n (lookup n s.chat_rooms)

unfoldable pub close_chat_room : Server → List Bytes → ℕ → Result Reply
close_chat_room s tokens fd =
    if not (length tokens == 2)
    then reply s (text "Usage: close-chat-room <number>\n")
    else if not (is_logged_in s fd)
    then please_login s
    else close_number s fd (word_at tokens 1) (stoi (word_at tokens 1))

unfoldable pub leave_room : Server → ℕ → ℕ → ChatRoom → Server
unfolding set_room
leave_room s fd n room =
    record (set_room s n (record room { clients = erase_first fd room.clients })) {
      client_in_chat_room = erase fd s.client_in_chat_room;
    }

abbrev pub exit_at : Server → ℕ → Option ℕ → Result Reply
exit_at s fd none = reply s (text "You are not in the chat room.\n")
exit_at s fd (some n) = do
  p ← client_at s fd
  ok (record {
    server = leave_room s fd n (room_at s n);
    response = text "% ";
    events =
        broadcast fd ((s.heap p).username ++ text " had left the chat room.\n")
          (erase_first fd (room_at s n).clients);
  })

unfoldable pub exit_chat_room : Server → List Bytes → ℕ → Result Reply
exit_chat_room s tokens fd =
    if not (length tokens == 1)
    then reply s (text "Usage: /exit-chat-room\n")
    else if not (is_logged_in s fd)
    then please_login s
    else exit_at s fd (lookup fd s.client_in_chat_room)

-- `users.push_back(clients[client])`, and the pointers are read when they are sorted.
unfoldable pub users_of : Server → List ℕ → Result (List ℕ)
users_of s [] = ok []
users_of s (client ∷ clients) = do p ← client_at s client; ps ← users_of s clients; ok (p ∷ ps)

abbrev pub list_at : Server → Option ℕ → Result Reply
list_at s none = reply s (text "You are not in the chat room.\n% ")
list_at s (some n) = do
  ps ← users_of s (room_at s n).clients
  reply (touch_room s n) (show_users s.heap (sort_users s.heap ps))

unfoldable pub list_user_in_chat_room : Server → List Bytes → ℕ → Result Reply
list_user_in_chat_room s tokens fd =
    if not (length tokens == 1)
    then reply s (text "Usage: /list-user\n")
    else if not (is_logged_in s fd)
    then reply s (text "Please login first.\n% ")
    else list_at s (lookup fd s.client_in_chat_room)
