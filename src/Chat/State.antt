-- ===== src/Chat/State.antt =====
-- The state of homework2/header.hpp: users behind pointers, chat rooms and the `Server` object.
use inp.Common.{ℕ, Bool, false, List, [], ◌∷◌, Option, none, some, ◌==◌, if◌then◌else◌, get_or}
use inp.Common.Maps.{Map, lookup, insert}
use inp.Common.Bytes.{Bytes, member}
use inp.Chat.Result.{Result, ok, or_fault, null_pointer}
use inp.Chat.Filter.{filter_words}

pub record User : Type 0 where
  pub username : Bytes
  pub password : Bytes
  pub status : Bytes

pub record ChatRecord : Type 0 where
  pub username : Bytes
  pub message : Bytes

pub record ChatRoom : Type 0 where
  pub owner : Bytes
  pub clients : List ℕ
  pub history : List ChatRecord
  pub pinned_user : Bytes
  pub pinned_text : Bytes
  pub filter_list : List Bytes

-- `ChatRoom()`, which `chatRooms[n]` makes for a number without a room.
abbrev pub no_room : ChatRoom
no_room = record {
  owner = [];
  clients = [];
  history = [];
  pinned_user = [];
  pinned_text = [];
  filter_list = [];
}

-- `ChatRoom(owner)`
abbrev pub new_room : Bytes → ChatRoom
new_room owner = record no_room { owner = owner; filter_list = filter_words }

-- A `User *` is the number of the allocation; `heap` holds what it points to. No user is freed.
pub record Server : Type 0 where
  pub heap : ℕ → User
  pub allocated : ℕ
  pub clients : Map ℕ
  pub registered_user : List ℕ
  pub chat_rooms : Map ChatRoom
  pub logged_in_users : List Bytes
  pub client_in_chat_room : Map ℕ
  pub master_set : List ℕ

abbrev pub no_user : User
no_user = record { username = []; password = []; status = [] }

abbrev pub new_server : Server
new_server = record {
  heap = λ p. no_user;
  allocated = 0;
  clients = [];
  registered_user = [];
  chat_rooms = [];
  logged_in_users = [];
  client_in_chat_room = [];
  master_set = [];
}

abbrev pub update : (ℕ → User) → ℕ → User → ℕ → User
update heap p u q = if p == q then u else heap q

-- What the server does to its sockets, in order.
pub data Event : Type 0 where
  send : ℕ → Bytes → Event
  close : ℕ → Event

-- What a handler returns and leaves behind.
pub record Reply : Type 0 where
  pub server : Server
  pub response : Bytes
  pub events : List Event

abbrev pub reply : Server → Bytes → Result Reply
reply s response = ok (record { server = s; response = response; events = [] })

-- `tokens[i]`
abbrev pub word_at : List Bytes → ℕ → Bytes
word_at tokens i = get_or tokens i []

abbrev pub name_in : Server → Option ℕ → Bool
name_in s none = false
name_in s (some p) = member (s.heap p).username s.logged_in_users

-- The test that the handlers begin with: the socket has a user, and that user is logged in.
unfoldable pub is_logged_in : Server → ℕ → Bool
is_logged_in s fd = name_in s (lookup fd s.clients)

-- `clients[fd]`, where the user behind the pointer is then read.
unfoldable pub client_at : Server → ℕ → Result ℕ
client_at s fd = or_fault (lookup fd s.clients) null_pointer

abbrev pub room_or_new : Option ChatRoom → ChatRoom
room_or_new none = no_room
room_or_new (some room) = room

-- `chatRooms[n]`: the room, and the server with the room that the access may have made.
unfoldable pub room_at : Server → ℕ → ChatRoom
room_at s n = room_or_new (lookup n s.chat_rooms)

unfoldable pub set_room : Server → ℕ → ChatRoom → Server
set_room s n room = record s { chat_rooms = insert n room s.chat_rooms }

abbrev pub add_missing : Server → ℕ → Option ChatRoom → Server
add_missing s n none = record s { chat_rooms = insert n no_room s.chat_rooms }
add_missing s n (some room) = s

unfoldable pub touch_room : Server → ℕ → Server
touch_room s n = add_missing s n (lookup n s.chat_rooms)

-- `for (int client : clients) if (client != fd) send(client, message)`
unfoldable pub broadcast : ℕ → Bytes → List ℕ → List Event
broadcast fd message [] = []
broadcast fd message (client ∷ clients) =
    let rest = broadcast fd message clients in
    if client == fd then rest else send client message ∷ rest
