-- ===== src/Chat/Tests.antt =====
-- Sessions of the chat server, run, and the theorems at concrete states.
use mathlib.Core.List.{Perm}
use inp.Common.{ℕ, ◌≤◌, ◌≡◌, ◌↔◌, refl, inl, List, [], ◌∷◌, ◌++◌, some, arith, All}
use inp.Common.Maps
use inp.Common.Maps.{lookup, insert}
use inp.Common.Bytes
use inp.Common.Bytes.{Bytes, text, bytes_eq, member}
use inp.Chat.Result.{Result, ok, err, uncaught, ◌>>=◌}
use inp.Common.Text.{
  is_space, tokenize, to_lower, starts_with, find, replace, bytes_lt, stoi, to_string, words_from,
  leading_number, skip_spaces, digits,
}
use inp.Chat.Filter.{censor, filter_words, mask_words, mask_word}
use inp.Chat.Filter.Masks.{Masks}
use inp.Chat.Filter.Masked.{IsHidden, censor_hides, filter_words-IsFilter}
use inp.Chat.State.{
  new_room, Server, new_server, reply, Event, send, close, is_logged_in, client_at, room_at,
  touch_room, set_room, broadcast,
}
use inp.Chat.Account.{
  is_taken, add_user, open_session, register_user, login_user, logout_user, get_whoami, list_user,
  show_users, find_account, sort_users, close_session, free_slot, exit_user, is_status,
  set_client_status, insert_user,
}
use inp.Chat.Room.{
  join_room, enter_chat_room, list_user_in_chat_room, users_of, latest, show_welcome, show_history,
  show_pin, show_message, insert_number, sort_numbers, show_rooms, list_chat_room, erase_all,
  drop_room, close_chat_room, leave_room, exit_chat_room,
}
use inp.Chat.Message.{send_message, spaced, pop_back, set_pin_message, delete_pin_message}
use inp.Chat.Dispatch.{Outcome, handle_command, plain_command, room_command, exit_command}
use inp.Chat.Loop.{Host, new_host, received, accept_client, serve_socket, turn, readfds, max_socket}
use inp.Chat.Loop.Safe.{start, HostSafe, Reach-turn_safe, Reach-watched_le}
use inp.Chat.Loop.Stale.{closed-whoami}
use inp.Chat.Invariant.{Inv, new_server-Inv, name_of}
use inp.Chat.Invariant.Account.{add_user-Inv, open_session-Inv}
use inp.Chat.Invariant.Room.{join_room-Inv}
use inp.Chat.Invariant.Dispatch.{Safe, Aborts, handle_command-Safe}
use inp.Chat.Sessions.{login-register}
use inp.Chat.Listing.{IsSorted, list_user_lem}
use inp.Chat.Crash.{handle_command-uncaught}

-- What a test has to see through.
open_all : ℕ
unfolding lookup insert Maps.erase text bytes_eq member Bytes.insert Bytes.erase is_space words_from
    tokenize to_lower starts_with find replace bytes_lt leading_number skip_spaces stoi digits
    to_string mask_word mask_words censor filter_words is_logged_in client_at room_at set_room
    touch_room broadcast is_taken register_user find_account open_session login_user close_session
    logout_user free_slot exit_user get_whoami is_status set_client_status insert_user sort_users
    show_users list_user show_message show_history latest show_pin show_welcome join_room
    enter_chat_room insert_number sort_numbers show_rooms list_chat_room erase_all drop_room
    close_chat_room leave_room exit_chat_room users_of list_user_in_chat_room spaced pop_back
    set_pin_message delete_pin_message send_message room_command exit_command plain_command
    handle_command
open_all = 0

abbrev run : List (ℕ × Bytes) → Server → Result Outcome
run [] s = ok (record { server = s; client_socket_list = []; events = [] })
run ((fd, line) ∷ lines) s = do
  out ← handle_command s fd line (4 ∷ 5 ∷ [])
  rest ← run lines out.server
  ok (record rest { events = out.events ++ rest.events })

abbrev sends : List Event → List (ℕ × Bytes)
sends [] = []
sends (send fd m ∷ es) = (fd, m) ∷ sends es
sends (close fd ∷ es) = (fd, []) ∷ sends es

abbrev shown : Result Outcome → List (ℕ × Bytes)
shown (err e) = []
shown (ok out) = sends out.events

abbrev story : List (ℕ × Bytes)
story =
    (4, text "register ann pw")
    ∷ (5, text "register bob  pw")
    ∷ (4, text "login ann pw")
    ∷ (5, text "login bob pw")
    ∷ (4, text "enter-chat-room 7")
    ∷ (5, text "enter-chat-room 7x")
    ∷ (4, text "say HeLLo ===")
    ∷ (5, text "/list-user")
    ∷ (5, text "/exit-chat-room")
    ∷ (5, text "exit")
    ∷ []

story_runs :
    shown (run story new_server)
    ≡ (4, text "Register successfully.\n% ")
      ∷ (5, text "Register successfully.\n% ")
      ∷ (4, text "Welcome, ann.\n% ")
      ∷ (5, text "Welcome, bob.\n% ")
      ∷ (4, text "Welcome to the public chat room.\nRoom number: 7\nOwner: ann\n")
      ∷ (4, text "bob had enter the chat room.\n")
      ∷ (5, text "Welcome to the public chat room.\nRoom number: 7\nOwner: ann\n")
      ∷ (5, text "[ann]: say ***** **=\n")
      ∷ (4, text "[ann]: say ***** **=\n")
      ∷ (5, text "ann online\nbob online\n")
      ∷ (4, text "bob had left the chat room.\n")
      ∷ (5, text "% ")
      ∷ (5, text "Bye, bob.\n")
      ∷ (5, [])
      ∷ (5, text "Bye, bob.\n% ")
      ∷ []
unfolding open_all
story_runs = refl

-- Users 0 and 1 are ann on socket 4 and bob on socket 5, both in room 7.
abbrev registered : Server
registered = add_user (add_user new_server (text "ann") (text "pw")) (text "bob") (text "pw")

abbrev ann_in : Server
ann_in = open_session registered 4 0 (text "ann")

abbrev online : Server
online = open_session ann_in 5 1 (text "bob")

abbrev hall : Server
hall = join_room online 4 7 (new_room (text "ann"))

abbrev full : Server
full = join_room hall 5 7 (room_at hall 7)

registered-Inv : Inv registered
unfolding open_all
registered-Inv =
    add_user-Inv (add_user new_server (text "ann") (text "pw")) (text "bob") (text "pw")
      (add_user-Inv new_server (text "ann") (text "pw") new_server-Inv refl) refl

ann_in-Inv : Inv ann_in
unfolding open_all
ann_in-Inv = open_session-Inv registered 4 0 (text "ann") registered-Inv refl refl refl refl

online-Inv : Inv online
unfolding open_all
online-Inv = open_session-Inv ann_in 5 1 (text "bob") ann_in-Inv refl refl refl refl

hall-Inv : Inv hall
unfolding open_all
hall-Inv =
    join_room-Inv online 4 7 0 (new_room (text "ann")) online-Inv refl refl (omega arith) (tt, refl)
      (λ old h. absurd (ground arith)) (λ g h. absurd (ground arith))

full-Inv : Inv full
unfolding open_all
full-Inv =
    join_room-Inv hall 5 7 1 (room_at hall 7) hall-Inv refl refl (omega arith) ((refl, tt), refl)
      (λ old h. ground arith) (λ g h. ground arith)

handle_command-Safe_example :
    Safe
      (Aborts full 4 (tokenize (text "hello you")))
      full
      4
      (4 ∷ 5 ∷ [])
      (handle_command full 4 (text "hello you") (4 ∷ 5 ∷ []))
handle_command-Safe_example = handle_command-Safe full 4 (text "hello you") (4 ∷ 5 ∷ []) full-Inv

handle_command-uncaught_example :
    (handle_command online 4 (text "enter-chat-room 3000000000") [] ≡ err uncaught)
    ↔ Aborts online 4 (tokenize (text "enter-chat-room 3000000000"))
handle_command-uncaught_example =
    handle_command-uncaught online 4 (text "enter-chat-room 3000000000") [] online-Inv

-- The right side holds there: the number ends the server.
online-Aborts : Aborts online 4 (tokenize (text "enter-chat-room 3000000000"))
unfolding open_all
online-Aborts = (refl, inl refl, refl, (refl, refl))

censor_hides_example :
    (out : Bytes) × (censor filter_words (text "a Hello ==") ≡ ok out)
    × Masks (text "a Hello ==") out
    × All (IsHidden out) filter_words
censor_hides_example = censor_hides filter_words (text "a Hello ==") filter_words-IsFilter

login-register_example :
    (s₁ s₂ : Server) × (register_user full (text "register" ∷ text "eve" ∷ text "x" ∷ [])
      ≡ reply s₁ (text "Register successfully.\n"))
    × (login_user s₁ (text "login" ∷ text "eve" ∷ text "x" ∷ []) 6
        ≡ reply s₂ (text "Welcome, " ++ (text "eve" ++ text ".\n")))
    × (get_whoami s₂ (text "whoami" ∷ []) 6 ≡ reply s₂ (text "eve" ++ text "\n"))
unfolding open_all
login-register_example = login-register full 6 (text "eve") (text "x") full-Inv refl refl

list_user_lem_example :
    (ps : List ℕ) × (list_user online (text "list-user" ∷ []) 4
      ≡ reply (record online { registered_user = ps }) (show_users online.heap ps))
    × Perm ps (0 ∷ 1 ∷ [])
    × IsSorted online.heap ps
unfolding open_all
list_user_lem_example = list_user_lem online 4 (text "list-user") refl

-- Socket 4 has said something, and then its connection is closed.
abbrev host : Host
host = record { server = full; client_socket = 4 ∷ 5 ∷ 0 ∷ []; sent = [] }

abbrev after_close : Host
after_close = record host {
  server = record full { master_set = [] };
  client_socket = 0 ∷ 5 ∷ 0 ∷ [];
  sent = close 4 ∷ [];
}

closed-whoami_example :
    let s = (accept_client after_close 4).server in
    get_whoami s (text "whoami" ∷ []) 4 ≡ reply s (name_of full 0 ++ text "\n")
unfolding open_all serve_socket
closed-whoami_example = closed-whoami host after_close 0 4 0 refl refl refl

Reach-turn_safe_example :
    HostSafe (turn 3 (new_host 3) (some 4) (λ fd. some (received b'w' (text "hoami\n"))))
Reach-turn_safe_example =
    Reach-turn_safe 3 (new_host 3) (some 4) (λ fd. some (received b'w' (text "hoami\n"))) start
      (omega arith, refl)

Reach-watched_le_example : 3 ≤ max_socket (new_host 3) 3
unfolding readfds
Reach-watched_le_example = Reach-watched_le 3 (new_host 3) 3 3 start refl
