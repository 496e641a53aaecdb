-- ===== src/Chat/Invariant.antt =====
-- What holds of the `Server` of homework2 between two commands.
pub mod Account
pub mod Room
pub mod Command
pub mod Message
pub mod Dispatch
use inp.Common.{
  ℕ, ◌≤◌, ◌<◌, ◌≡◌, ◌≢◌, refl, ap, Bool, true, false, List, [], ◌∷◌, Option, none, some, contains,
  IsDistinct, arith,
}
use inp.Common.Maps.{Map, lookup}
use inp.Common.Bytes.{Bytes, member}
use inp.Chat.Result.{Result, ok, err, Fault, uncaught, null_pointer, no_end, ◌>>=◌}
use inp.Chat.Filter.{filter_words}
use inp.Chat.State.{User, ChatRoom, Server, new_server, Reply, client_at, is_logged_in}

abbrev pub name_of : Server → ℕ → Bytes
name_of s p = (s.heap p).username

-- `named`: no two registered users share a name. `session`, `single`, `owned`: the sockets with a
-- user and the logged-in names correspond, one to one. `seated`, `listed`: a socket's room and the
-- rooms' lists of sockets say the same. `tidy`: no room lists a socket twice, its filtered words are
-- those of the constructor, and its number is from 1 to 100.
pub record Inv (s : Server) : Type 0 where
  pub allocated : (p : ℕ) → contains p s.registered_user ≡ true → p < s.allocated
  pub named :
      (p q : ℕ)
      → contains p s.registered_user ≡ true
      → contains q s.registered_user ≡ true
      → name_of s p ≡ name_of s q
      → p ≡ q
  pub session :
      (fd p : ℕ)
      → lookup fd s.clients ≡ some p
      → (contains p s.registered_user ≡ true) × (member (name_of s p) s.logged_in_users ≡ true)
  pub single :
      (fd fd' p : ℕ) → lookup fd s.clients ≡ some p → lookup fd' s.clients ≡ some p → fd ≡ fd'
  pub owned :
      (u : Bytes)
      → member u s.logged_in_users ≡ true
      → (fd : ℕ) × (p : ℕ) × (lookup fd s.clients ≡ some p) × (name_of s p ≡ u)
  pub seated :
      (fd n : ℕ)
      → lookup fd s.client_in_chat_room ≡ some n
      → (p : ℕ) × (room : ChatRoom) × (lookup fd s.clients ≡ some p)
        × (lookup n s.chat_rooms ≡ some room)
        × (contains fd room.clients ≡ true)
  pub listed :
      (fd n : ℕ) (room : ChatRoom)
      → lookup n s.chat_rooms ≡ some room
      → contains fd room.clients ≡ true
      → lookup fd s.client_in_chat_room ≡ some n
  pub tidy :
      (n : ℕ) (room : ChatRoom)
      → lookup n s.chat_rooms ≡ some room
      → IsDistinct room.clients × (room.filter_list ≡ filter_words) × (1 ≤ n) × (n ≤ 100)

-- What a command of `fd` leaves alone: the sockets that are watched, and the other sockets' users.
pub record Frame (s : Server) (fd : ℕ) (s' : Server) : Type 0 where
  pub watched : s'.master_set ≡ s.master_set
  pub others : (g : ℕ) → g ≢ fd → lookup g s'.clients ≡ lookup g s.clients

-- What a handler may end in: a state with the invariant, with what it leaves alone, or, only if
-- `X`, an exception that nothing catches. It reads through no null pointer, and every loop ends.
abbrev pub Good : Type 0 → Server → ℕ → Result Reply → Type 0
Good X s fd (ok r) = Inv r.server × Frame s fd r.server
Good X s fd (err uncaught) = X
Good X s fd (err null_pointer) = ⊥
Good X s fd (err no_end) = ⊥

-- A state with the same sockets and users.
pub Frame-refl :
    (s : Server) (fd : ℕ) (s' : Server)
    → s'.master_set ≡ s.master_set
    → s'.clients ≡ s.clients
    → Frame s fd s'
Frame-refl s fd s' w c = record { watched = w; others = λ g ne. ap (lookup g) c }

pub new_server-Inv : Inv new_server
unfolding lookup member
new_server-Inv = record {
  allocated = λ p h. absurd (ground arith);
  named = λ p q h k e. absurd (ground arith);
  session = λ fd p h. absurd (ground arith);
  single = λ fd fd' p h k. absurd (ground arith);
  owned = λ u h. absurd (ground arith);
  seated = λ fd n h. absurd (ground arith);
  listed = λ fd n room h k. absurd (ground arith);
  tidy = λ n room h. absurd (ground arith);
}

-- A logged-in socket has a user; any other has none.
pub is_logged_in-some :
    (s : Server) (fd : ℕ) → is_logged_in s fd ≡ true → (p : ℕ) × (lookup fd s.clients ≡ some p)
unfolding is_logged_in
is_logged_in-some s fd h = ground arith

pub is_logged_in-none :
    (s : Server) (fd : ℕ) → Inv s → is_logged_in s fd ≡ false → lookup fd s.clients ≡ none
unfolding is_logged_in
is_logged_in-none s fd v h = go (lookup fd s.clients) refl h
  where
    go :
        (o : Option ℕ)
        → lookup fd s.clients ≡ o
        → is_logged_in s fd ≡ false
        → lookup fd s.clients ≡ none
    go none e k = e
    go (some p) e k = absurd (ground (arith, v.session fd p e))

pub client_at-ok : (s : Server) (fd p : ℕ) → lookup fd s.clients ≡ some p → client_at s fd ≡ ok p
unfolding client_at
client_at-ok s fd p h = rw (h)
