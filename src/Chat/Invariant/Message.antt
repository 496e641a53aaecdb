-- ===== src/Chat/Invariant/Message.antt =====
-- The commands inside a chat room keep the invariant.
use inp.Common.{
  ℕ, ◌≡◌, refl, true, not, List, [], ◌∷◌, Option, none, some, contains, arith, ◌==◌, ltb, length,
  drop, get_or, ==_refl,
}
use inp.Common.Maps.{lookup}
use inp.Common.Bytes.{Bytes, bytes_eq}
use inp.Chat.Result.{ok}
use inp.Chat.Filter.Masked.{censor_hides, filter_words-IsFilter}
use inp.Chat.State.{ChatRoom, Server, word_at, set_room}
use inp.Chat.Room.{list_user_in_chat_room, list_at, users_of}
use inp.Chat.Message.{
  set_pin_message, pin_at, delete_pin_message, unpin_at, send_message, send_at, spaced, pop_back,
}
use inp.Chat.Dispatch.{is_name, room_command}
use inp.Chat.Invariant.{Inv, Frame-refl, Good, client_at-ok}
use inp.Chat.Invariant.Room.{edit_room-Inv, room_at-some, touch_room-some}
use inp.Chat.Invariant.Command.{idle, guard-Good, session-Good, exit_chat_room-Good}

-- Every socket of the list has a user.
pub users_of-ok :
    (s : Server) (cs : List ℕ)
    → ((g : ℕ) → contains g cs ≡ true → (p : ℕ) × (lookup g s.clients ≡ some p))
    → (ps : List ℕ) × (users_of s cs ≡ ok ps)
unfolding users_of
users_of-ok s [] h = ([], refl)
users_of-ok s (c ∷ cs) h =
    let (p, l) = h c (ground (arith, ==_refl c)) in
    let (ps, e) = users_of-ok s cs (λ g k. h g (ground arith)) in
    (p ∷ ps, rw (client_at-ok s c p l, e))

pub room_users :
    (s : Server) (n : ℕ) (room : ChatRoom)
    → Inv s
    → lookup n s.chat_rooms ≡ some room
    → (ps : List ℕ) × (users_of s room.clients ≡ ok ps)
room_users s n room v at =
    users_of-ok s room.clients
      λ g c. let (p, _, l, _, _) = v.seated g n (v.listed g n room at c) in (p, l)

list_user_in_chat_room-Good :
    (s : Server) (tokens : List Bytes) (fd : ℕ)
    → Inv s
    → Good ⊥ s fd (list_user_in_chat_room s tokens fd)
unfolding list_user_in_chat_room
list_user_in_chat_room-Good s tokens fd v =
    guard-Good _ s fd (not (length tokens == 1)) _ _ (idle s fd v) λ _.
      session-Good _ s fd _ _ (idle s fd v) λ on p l. inside (lookup fd s.client_in_chat_room) refl
  where
    inside : (o : Option ℕ) → lookup fd s.client_in_chat_room ≡ o → Good ⊥ s fd (list_at s o)
    inside none e = idle s fd v
    inside (some n) e =
        let (q, room, _, at, _) = v.seated fd n e in
        let (ps, u) = room_users s n room v at in
        rw (room_at-some s n room at, u, touch_room-some s n room at) (idle s fd v)

module _ (s : Server) (fd : ℕ) (words : List Bytes) (v : Inv s) where
  pin_at-Good :
      (o : Option ℕ) → lookup fd s.client_in_chat_room ≡ o → Good ⊥ s fd (pin_at s fd words o)
  unfolding set_room
  pin_at-Good none e = idle s fd v
  pin_at-Good (some n) e =
      let (p, room, l, at, _) = v.seated fd n e in
      let (out, run, _, _) =
        censor_hides room.filter_list (pop_back (spaced words))
          (rw (v.tidy n room at).1 filter_words-IsFilter) in
      rw (room_at-some s n room at, run, client_at-ok s fd p l)
        (edit_room-Inv s n room _ v at refl refl, Frame-refl s fd _ refl refl)

  send_at-Good :
      (o : Option ℕ) → lookup fd s.client_in_chat_room ≡ o → Good ⊥ s fd (send_at s fd words o)
  unfolding set_room
  send_at-Good none e = idle s fd v
  send_at-Good (some n) e =
      let (p, room, l, at, _) = v.seated fd n e in
      let (out, run, _, _) =
        censor_hides room.filter_list (pop_back (spaced words))
          (rw (v.tidy n room at).1 filter_words-IsFilter) in
      rw (room_at-some s n room at, run, client_at-ok s fd p l)
        (edit_room-Inv s n room _ v at refl refl, Frame-refl s fd _ refl refl)

set_pin_message-Good :
    (s : Server) (tokens : List Bytes) (fd : ℕ) → Inv s → Good ⊥ s fd (set_pin_message s tokens fd)
unfolding set_pin_message
set_pin_message-Good s tokens fd v =
    guard-Good _ s fd (ltb (length tokens) 2) _ _ (idle s fd v) λ _.
      session-Good _ s fd _ _ (idle s fd v)
        λ on p l. pin_at-Good s fd (drop 1 tokens) v (lookup fd s.client_in_chat_room) refl

delete_pin_message-Good :
    (s : Server) (tokens : List Bytes) (fd : ℕ)
    → Inv s
    → Good ⊥ s fd (delete_pin_message s tokens fd)
unfolding delete_pin_message set_room
delete_pin_message-Good s tokens fd v =
    guard-Good _ s fd (not (length tokens == 1)) _ _ (idle s fd v) λ _.
      session-Good _ s fd _ _ (idle s fd v) λ on p l. inside (lookup fd s.client_in_chat_room) refl
  where
    inside : (o : Option ℕ) → lookup fd s.client_in_chat_room ≡ o → Good ⊥ s fd (unpin_at s o)
    inside none e = idle s fd v
    inside (some n) e =
        let (q, room, _, at, _) = v.seated fd n e in
        rw (room_at-some s n room at) (
          guard-Good _ s fd (bytes_eq room.pinned_user []) _ _
            (rw (touch_room-some s n room at) (idle s fd v))
            λ _. (edit_room-Inv s n room _ v at refl refl, Frame-refl s fd _ refl refl))

send_message-Good :
    (s : Server) (tokens : List Bytes) (fd : ℕ) → Inv s → Good ⊥ s fd (send_message s tokens fd)
unfolding send_message
send_message-Good s tokens fd v = send_at-Good s fd tokens v (lookup fd s.client_in_chat_room) refl

pub room_command-Good :
    (s : Server) (tokens : List Bytes) (fd : ℕ) → Inv s → Good ⊥ s fd (room_command s tokens fd)
unfolding room_command
room_command-Good s tokens fd v =
    guard-Good _ s fd (is_name "/pin" tokens) _ _ (set_pin_message-Good s tokens fd v) λ _.
      guard-Good _ s fd (is_name "/delete-pin" tokens) _ _ (delete_pin_message-Good s tokens fd v)
        λ _.
          guard-Good _ s fd (is_name "/exit-chat-room" tokens) _ _
            (exit_chat_room-Good s tokens fd v)
            λ _.
              guard-Good _ s fd (is_name "/list-user" tokens) _ _
                (list_user_in_chat_room-Good s tokens fd v)
                λ _.
                  guard-Good _ s fd (get_or (word_at tokens 0) 0 0 == b'/') _ _ (idle s fd v)
                    λ _. send_message-Good s tokens fd v
