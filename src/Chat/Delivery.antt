-- ===== src/Chat/Delivery.antt =====
-- Who receives what the members of a chat room write.
use inp.Common.{
  ℕ, suc, ◌≡◌, ◌≢◌, refl, Bool, true, false, List, [], ◌∷◌, some, arith, ◌==◌, if◌then◌else◌,
  contains, IsDistinct, All,
}
use inp.Common.Maps.{lookup}
use inp.Common.Bytes.{Bytes}
use inp.Chat.Filter.{filter_words}
use inp.Chat.Filter.Masks.{Masks}
use inp.Chat.Filter.Masked.{IsHidden}
use inp.Chat.State.{ChatRoom, Server, Event, send, close, Reply, set_room, broadcast}
use inp.Chat.Room.{show_message}
use inp.Chat.Message.{spaced, pop_back, add_record}
use inp.Chat.Invariant.{name_of}

-- How many of the events send something to the socket.
pub addressed : ℕ → List Event → ℕ
addressed g [] = 0
addressed g (send fd message ∷ events) =
    if g == fd then suc (addressed g events) else addressed g events
addressed g (close fd ∷ events) = addressed g events

addressed-broadcast_none :
    (g fd : ℕ) (message : Bytes) (cs : List ℕ)
    → contains g cs ≡ false
    → addressed g (broadcast fd message cs) ≡ 0
unfolding addressed broadcast
addressed-broadcast_none g fd message [] h = refl
addressed-broadcast_none g fd message (c ∷ cs) h =
    ground (arith, addressed-broadcast_none g fd message cs)

-- A broadcast sends once to each listed socket but the sender's, and to no other.
pub addressed-broadcast :
    (g fd : ℕ) (message : Bytes) (cs : List ℕ)
    → IsDistinct cs
    → addressed g (broadcast fd message cs)
      ≡ (if g == fd then 0 else if contains g cs then 1 else 0)
unfolding addressed broadcast
addressed-broadcast g fd message [] h = ground arith
addressed-broadcast g fd message (c ∷ cs) h =
    ground
      (arith, addressed-broadcast g fd message cs h.1, addressed-broadcast_none g fd message cs)

-- Every event sends this message.
abbrev pub Sends : Bytes → List Event → Type 0
Sends message = All (λ e. (fd : ℕ) × (e ≡ send fd message))

pub broadcast-Sends :
    (fd : ℕ) (message : Bytes) (cs : List ℕ) → Sends message (broadcast fd message cs)
unfolding broadcast
broadcast-Sends fd message [] = tt
broadcast-Sends fd message (c ∷ cs) = step (c == fd) (broadcast-Sends fd message cs)
  where
    step :
        (b : Bool)
        → Sends message (broadcast fd message cs)
        → Sends message
            (if b then broadcast fd message cs else send c message ∷ broadcast fd message cs)
    step true h = h
    step false h = ((c, refl), h)

-- The answer to a chat message of user `p` in room `n`: what the room becomes and who hears it.
pub record Delivered (s : Server) (fd n : ℕ) (words : List Bytes) (r : Reply) : Type 0 where
  pub user : ℕ
  pub room : ChatRoom
  pub shown : Bytes
  pub sender : lookup fd s.clients ≡ some user
  pub place : lookup n s.chat_rooms ≡ some room
  pub masked : Masks (pop_back (spaced words)) shown
  pub hidden : All (IsHidden shown) filter_words
  pub kept : r.server ≡ set_room s n (add_record room (name_of s user) shown)
  pub answered : r.response ≡ show_message (name_of s user) shown
  pub told : Sends r.response r.events
  pub members :
      (g : ℕ) → g ≢ fd → lookup g s.client_in_chat_room ≡ some n → addressed g r.events ≡ 1
  pub outsiders : (g : ℕ) → lookup g s.client_in_chat_room ≢ some n → addressed g r.events ≡ 0
  pub itself : addressed fd r.events ≡ 0
