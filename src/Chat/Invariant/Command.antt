-- ===== src/Chat/Invariant/Command.antt =====
-- Every command keeps the invariant, reads through no null pointer and ends.
use inp.Common.{
  ℕ, ◌≤◌, ◌≡◌, refl, Bool, true, false, ◌||◌, not, List, Option, none, some, arith, ◌==◌, ltb,
  if◌then◌else◌, length,
}
use inp.Common.Maps.{lookup, lookup-insert, lookup-erase}
use inp.Common.Bytes.{Bytes, member, bytes_eq}
use inp.Chat.Result.{Result, ok, err, uncaught, Fault}
use inp.Common.Text.{pos, negsuc, Parsed, invalid, out_of_range, number, stoi}
use inp.Chat.State.{ChatRoom, new_room, Server, Reply, word_at, is_logged_in}
use inp.Chat.Account.{
  is_taken, find_account, register_user, login_user, logout_user, get_whoami, set_client_status,
  list_user, welcome, is_status, open_session, close_session,
}
use inp.Chat.Room.{
  enter_chat_room, enter_number, enter_at, list_chat_room, close_chat_room, close_number, close_at,
  exit_chat_room, exit_at, join_room, drop_room, leave_room,
}
use inp.Chat.Invariant.{
  Inv, Frame, Frame-refl, Good, is_logged_in-some, is_logged_in-none, client_at-ok,
}
use inp.Chat.Invariant.Account.{
  add_user-Inv, find_account-some, open_session-Inv, close_session-Inv, set_status-Inv,
  sort_users-Inv,
}
use inp.Chat.Invariant.Room.{join_room-Inv, leave_room-Inv, drop_room-Inv, room_at-some}

-- A handler that changes nothing.
pub idle : (s : Server) (fd : ℕ) → Inv s → Inv s × Frame s fd s
idle s fd v = (v, Frame-refl s fd s refl refl)

-- A guard: the early return is good, and so is the rest where the test fails.
pub guard-Good :
    (X : Type 0) (s : Server) (fd : ℕ) (test : Bool) (early rest : Result Reply)
    → Good X s fd early
    → (test ≡ false → Good X s fd rest)
    → Good X s fd (if test then early else rest)
guard-Good X s fd true early rest e r = e
guard-Good X s fd false early rest e r = r refl

-- The guard that a handler wants a logged-in socket.
pub session-Good :
    (X : Type 0) (s : Server) (fd : ℕ) (early rest : Result Reply)
    → Good X s fd early
    → (is_logged_in s fd ≡ true → (p : ℕ) → lookup fd s.clients ≡ some p → Good X s fd rest)
    → Good X s fd (if not (is_logged_in s fd) then early else rest)
session-Good X s fd early rest e r = guard-Good X s fd (not (is_logged_in s fd)) early rest e λ h.
    let on : is_logged_in s fd ≡ true = ground arith in
    let (p, l) = is_logged_in-some s fd on in r on p l

pub weaken :
    (X Y : Type 0) (s : Server) (fd : ℕ) (m : Result Reply)
    → (X → Y)
    → Good X s fd m
    → Good Y s fd m
weaken X Y s fd (ok r) f g = g
weaken X Y s fd (err uncaught) f g = f g
weaken X Y s fd (err Fault.null_pointer) f g = g
weaken X Y s fd (err Fault.no_end) f g = g

-- A logged-in client gives a room number that no `int` holds.
abbrev pub Overflows : Server → ℕ → List Bytes → Type 0
Overflows s fd tokens = (is_logged_in s fd ≡ true) × (stoi (word_at tokens 1) ≡ out_of_range)

open_session-Frame : (s : Server) (fd p : ℕ) (u : Bytes) → Frame s fd (open_session s fd p u)
unfolding open_session
open_session-Frame s fd p u = record {
  watched = refl;
  others = λ g ne. ground (arith, lookup-insert fd g p s.clients);
}

close_session-Frame : (s : Server) (fd p : ℕ) → Frame s fd (close_session s fd p)
unfolding close_session
close_session-Frame s fd p = record {
  watched = refl;
  others = λ g ne. ground (arith, lookup-erase fd g s.clients);
}

pub register_user-Good :
    (s : Server) (tokens : List Bytes) (fd : ℕ) → Inv s → Good ⊥ s fd (register_user s tokens)
unfolding register_user
register_user-Good s tokens fd v =
    guard-Good _ s fd (not (length tokens == 3)) _ _ (idle s fd v) λ _.
      guard-Good _ s fd (is_taken s.heap (word_at tokens 1) s.registered_user) _ _ (idle s fd v)
        λ free.
          (add_user-Inv s (word_at tokens 1) (word_at tokens 2) v free, Frame-refl s fd _ refl refl)

pub login_user-Good :
    (s : Server) (tokens : List Bytes) (fd : ℕ) → Inv s → Good ⊥ s fd (login_user s tokens fd)
unfolding login_user
login_user-Good s tokens fd v = guard-Good _ s fd (not (length tokens == 3)) _ _ (idle s fd v) λ _.
    guard-Good _ s fd (is_logged_in s fd) _ _ (idle s fd v) λ off.
      guard-Good _ s fd (member (word_at tokens 1) s.logged_in_users) _ _ (idle s fd v)
        λ out. found out (is_logged_in-none s fd v off) _ refl
  where
    found :
        member (word_at tokens 1) s.logged_in_users ≡ false
        → lookup fd s.clients ≡ none
        → (o : Option ℕ)
        → find_account s.heap s.logged_in_users
            (word_at tokens 1)
            (word_at tokens 2)
            s.registered_user
          ≡ o
        → Good ⊥ s fd (welcome s fd (word_at tokens 1) o)
    found out off none e = idle s fd v
    found out off (some p) e =
        let (reg, name, pw) =
          find_account-some s.heap s.logged_in_users _ _ s.registered_user p e in
        (open_session-Inv s fd p (word_at tokens 1) v reg name out off, open_session-Frame s fd p _)

pub logout_user-Good :
    (s : Server) (tokens : List Bytes) (fd : ℕ)
    → Inv s
    → lookup fd s.client_in_chat_room ≡ none
    → Good ⊥ s fd (logout_user s tokens fd)
unfolding logout_user
logout_user-Good s tokens fd v outside =
    guard-Good _ s fd (not (length tokens == 1)) _ _ (idle s fd v) λ _.
      session-Good _ s fd _ _ (idle s fd v) λ on p l.
        rw (client_at-ok s fd p l)
          (close_session-Inv s fd p v l outside, close_session-Frame s fd p)

pub get_whoami-Good :
    (s : Server) (tokens : List Bytes) (fd : ℕ) → Inv s → Good ⊥ s fd (get_whoami s tokens fd)
unfolding get_whoami
get_whoami-Good s tokens fd v =
    guard-Good _ s fd (not (length tokens == 1)) _ _ (idle s fd v)
      λ _. session-Good _ s fd _ _ (idle s fd v) λ on p l. rw (client_at-ok s fd p l) (idle s fd v)

pub set_client_status-Good :
    (s : Server) (tokens : List Bytes) (fd : ℕ)
    → Inv s
    → Good ⊥ s fd (set_client_status s tokens fd)
unfolding set_client_status
set_client_status-Good s tokens fd v =
    guard-Good _ s fd (not (length tokens == 2)) _ _ (idle s fd v) λ _.
      session-Good _ s fd _ _ (idle s fd v) λ on p l.
        guard-Good _ s fd (not (is_status (word_at tokens 1))) _ _ (idle s fd v) λ _.
          rw (client_at-ok s fd p l)
            (set_status-Inv s p (word_at tokens 1) v, Frame-refl s fd _ refl refl)

pub list_user-Good :
    (s : Server) (tokens : List Bytes) (fd : ℕ) → Inv s → Good ⊥ s fd (list_user s tokens fd)
unfolding list_user
list_user-Good s tokens fd v = guard-Good _ s fd (not (length tokens == 1)) _ _ (idle s fd v) λ _.
    session-Good _ s fd _ _ (idle s fd v)
      λ on p l. (sort_users-Inv s v, Frame-refl s fd _ refl refl)

pub enter_at-Good :
    (X : Type 0) (s : Server) (fd n p : ℕ) (username : Bytes) (o : Option ChatRoom)
    → Inv s
    → lookup fd s.clients ≡ some p
    → lookup fd s.client_in_chat_room ≡ none
    → (1 ≤ n) × (n ≤ 100)
    → lookup n s.chat_rooms ≡ o
    → Good X s fd (enter_at s fd n username o)
unfolding join_room
enter_at-Good X s fd n p username none v l outside b e = (
  join_room-Inv s fd n p (new_room username) v l outside b (tt, refl)
      (λ old h. absurd (ground arith)) (λ g h. absurd (ground arith)),
  Frame-refl s fd _ refl refl,
)
enter_at-Good X s fd n p username (some room) v l outside b e = (
  join_room-Inv s fd n p room v l outside b ((v.tidy n room e).0, (v.tidy n room e).1)
      (λ old h. ground arith) (λ g. v.listed g n room e),
  Frame-refl s fd _ refl refl,
)

pub enter_number-Good :
    (s : Server) (fd p : ℕ) (word : Bytes) (x : Parsed)
    → Inv s
    → lookup fd s.clients ≡ some p
    → lookup fd s.client_in_chat_room ≡ none
    → Good (x ≡ out_of_range) s fd (enter_number s fd word x)
enter_number-Good s fd p word invalid v l outside = idle s fd v
enter_number-Good s fd p word out_of_range v l outside = refl
enter_number-Good s fd p word (number (negsuc n)) v l outside = idle s fd v
enter_number-Good s fd p word (number (pos n)) v l outside =
    guard-Good _ s fd (ltb n 1 || ltb 100 n) _ _ (idle s fd v) λ b. rw (client_at-ok s fd p l) (
      enter_at-Good _ s fd n p (s.heap p).username (lookup n s.chat_rooms) v l outside
        (ground arith) refl)

pub enter_chat_room-Good :
    (s : Server) (tokens : List Bytes) (fd : ℕ)
    → Inv s
    → lookup fd s.client_in_chat_room ≡ none
    → Good ((length tokens ≡ 2) × Overflows s fd tokens) s fd (enter_chat_room s tokens fd)
unfolding enter_chat_room
enter_chat_room-Good s tokens fd v outside =
    guard-Good _ s fd (not (length tokens == 2)) _ _ (idle s fd v) λ two.
      session-Good _ s fd _ _ (idle s fd v) λ on p l.
        weaken (stoi (word_at tokens 1) ≡ out_of_range)
          ((length tokens ≡ 2) × Overflows s fd tokens) s fd _ (λ o. (ground arith, (on, o)))
          (enter_number-Good s fd p (word_at tokens 1) (stoi (word_at tokens 1)) v l outside)

pub list_chat_room-Good :
    (s : Server) (tokens : List Bytes) (fd : ℕ) → Inv s → Good ⊥ s fd (list_chat_room s tokens fd)
unfolding list_chat_room
list_chat_room-Good s tokens fd v =
    guard-Good _ s fd (not (length tokens == 1)) _ _ (idle s fd v)
      λ _. session-Good _ s fd _ _ (idle s fd v) λ on p l. idle s fd v

pub close_number-Good :
    (s : Server) (fd p : ℕ) (word : Bytes) (x : Parsed)
    → Inv s
    → lookup fd s.clients ≡ some p
    → Good (x ≡ out_of_range) s fd (close_number s fd word x)
unfolding drop_room
close_number-Good s fd p word invalid v l = idle s fd v
close_number-Good s fd p word out_of_range v l = refl
close_number-Good s fd p word (number (negsuc n)) v l = idle s fd v
close_number-Good s fd p word (number (pos n)) v l = found (lookup n s.chat_rooms) refl
  where
    found :
        (o : Option ChatRoom)
        → lookup n s.chat_rooms ≡ o
        → Good (number (pos n) ≡ out_of_range) s fd (close_at s fd word n o)
    found none e = idle s fd v
    found (some room) e = rw (client_at-ok s fd p l) (
        guard-Good _ s fd (not (bytes_eq room.owner (s.heap p).username)) _ _ (idle s fd v)
          λ _. (drop_room-Inv s n room v e, Frame-refl s fd _ refl refl))

pub close_chat_room-Good :
    (s : Server) (tokens : List Bytes) (fd : ℕ)
    → Inv s
    → Good ((length tokens ≡ 2) × Overflows s fd tokens) s fd (close_chat_room s tokens fd)
unfolding close_chat_room
close_chat_room-Good s tokens fd v =
    guard-Good _ s fd (not (length tokens == 2)) _ _ (idle s fd v) λ two.
      session-Good _ s fd _ _ (idle s fd v) λ on p l.
        weaken (stoi (word_at tokens 1) ≡ out_of_range)
          ((length tokens ≡ 2) × Overflows s fd tokens) s fd _ (λ o. (ground arith, (on, o)))
          (close_number-Good s fd p (word_at tokens 1) (stoi (word_at tokens 1)) v l)

pub exit_chat_room-Good :
    (s : Server) (tokens : List Bytes) (fd : ℕ) → Inv s → Good ⊥ s fd (exit_chat_room s tokens fd)
unfolding exit_chat_room leave_room
exit_chat_room-Good s tokens fd v =
    guard-Good _ s fd (not (length tokens == 1)) _ _ (idle s fd v) λ _.
      session-Good _ s fd _ _ (idle s fd v)
        λ on p l. inside p l (lookup fd s.client_in_chat_room) refl
  where
    inside :
        (p : ℕ)
        → lookup fd s.clients ≡ some p
        → (o : Option ℕ) → lookup fd s.client_in_chat_room ≡ o
        → Good ⊥ s fd (exit_at s fd o)
    inside p l none e = idle s fd v
    inside p l (some n) e =
        let (q, room, _, at, _) = v.seated fd n e in
        rw (client_at-ok s fd p l, room_at-some s n room at)
          (leave_room-Inv s fd n room v e at, Frame-refl s fd _ refl refl)
