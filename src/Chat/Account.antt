-- ===== src/Chat/Account.antt =====
-- homework2/server.cpp: the handlers of accounts and sessions.
use inp.Common.{
  ℕ, suc, Bool, false, ◌&&◌, ◌||◌, not, List, [], ◌∷◌, ◌++◌, Option, none, some, ◌==◌,
  if◌then◌else◌, length, remove,
}
use inp.Common.Maps.{insert, erase}
use inp.Common.Bytes
use inp.Common.Bytes.{Bytes, text, bytes_eq, member}
use inp.Chat.Result.{Result, ok, ◌>>=◌}
use inp.Common.Text.{bytes_lt}
use inp.Chat.State.{
  User, Server, Event, send, close, Reply, reply, word_at, update, is_logged_in, client_at,
}

abbrev pub please_login : Server → Result Reply
please_login s = reply s (text "Please login first.\n")

-- The loop of `registerUser` over the registered users.
unfoldable pub is_taken : (ℕ → User) → Bytes → List ℕ → Bool
is_taken heap username [] = false
is_taken heap username (p ∷ ps) = bytes_eq (heap p).username username || is_taken heap username ps

abbrev pub add_user : Server → Bytes → Bytes → Server
add_user s username password = record s {
  heap =
      update s.heap s.allocated
        (record { username = username; password = password; status = text "offline" });
  allocated = suc s.allocated;
  registered_user = s.registered_user ++ s.allocated ∷ [];
}

unfoldable pub register_user : Server → List Bytes → Result Reply
register_user s tokens =
    if not (length tokens == 3)
    then reply s (text "Usage: register <username> <password>\n")
    else if is_taken s.heap (word_at tokens 1) s.registered_user
    then reply s (text "Username is already used.\n")
    else reply (add_user s (word_at tokens 1) (word_at tokens 2)) (text "Register successfully.\n")

-- The loop of `loginUser`: the first registered user with the name and the password.
unfoldable pub find_account : (ℕ → User) → List Bytes → Bytes → Bytes → List ℕ → Option ℕ
find_account heap logged_in username password [] = none
find_account heap logged_in username password (p ∷ ps) =
    let rest = find_account heap logged_in username password ps in
    if bytes_eq (heap p).username username
      && (bytes_eq (heap p).password password && not (member username logged_in))
    then some p
    else rest

abbrev pub with_status : Server → ℕ → Bytes → ℕ → User
with_status s p status = update s.heap p (record (s.heap p) { status = status })

unfoldable pub open_session : Server → ℕ → ℕ → Bytes → Server
open_session s fd p username = record s {
  clients = insert fd p s.clients;
  heap = with_status s p (text "online");
  logged_in_users = Bytes.insert username s.logged_in_users;
}

abbrev pub welcome : Server → ℕ → Bytes → Option ℕ → Result Reply
welcome s fd username none = reply s (text "Login failed.\n")
welcome s fd username (some p) =
    reply (open_session s fd p username) (text "Welcome, " ++ (username ++ text ".\n"))

unfoldable pub login_user : Server → List Bytes → ℕ → Result Reply
login_user s tokens fd =
    if not (length tokens == 3)
    then reply s (text "Usage: login <username> <password>\n")
    else if is_logged_in s fd
    then reply s (text "Please logout first.\n")
    else if member (word_at tokens 1) s.logged_in_users
    then reply s (text "Login failed.\n")
    else welcome s fd (word_at tokens 1) (
        find_account s.heap s.logged_in_users (word_at tokens 1) (word_at tokens 2)
          s.registered_user)

unfoldable pub close_session : Server → ℕ → ℕ → Server
close_session s fd p = record s {
  logged_in_users = Bytes.erase (s.heap p).username s.logged_in_users;
  heap = with_status s p (text "offline");
  clients = erase fd s.clients;
}

unfoldable pub logout_user : Server → List Bytes → ℕ → Result Reply
logout_user s tokens fd =
    if not (length tokens == 1)
    then reply s (text "Usage: logout\n")
    else if not (is_logged_in s fd)
    then please_login s
    else do
      p ← client_at s fd
      reply (close_session s fd p) (text "Bye, " ++ ((s.heap p).username ++ text ".\n"))

-- `FD_CLR(socket, &master_set)`
abbrev pub remove_socket : Server → ℕ → Server
remove_socket s fd = record s { master_set = remove fd s.master_set }

-- `FD_SET(socket, &master_set)`
abbrev pub add_socket : Server → ℕ → Server
add_socket s fd = record s { master_set = fd ∷ s.master_set }

-- The loop that frees the first entry with the socket in the table of sockets.
unfoldable pub free_slot : ℕ → List ℕ → List ℕ
free_slot fd [] = []
free_slot fd (x ∷ xs) = if x == fd then 0 ∷ xs else x ∷ free_slot fd xs

-- What `exitUser` does behind the logout: forget the socket, close it and free its entry.
abbrev pub leave : ℕ → List ℕ → Reply → List Event → Reply × List ℕ
leave fd table r sent = (
  record {
    server = remove_socket r.server fd;
    response = r.response;
    events = sent ++ close fd ∷ [];
  },
  free_slot fd table,
)

-- The response of the logout is sent before the socket is closed.
abbrev pub leave_after : ℕ → List ℕ → Result Reply → Result (Reply × List ℕ)
leave_after fd table m = do r ← m; ok (leave fd table r (send fd r.response ∷ []))

-- `exitUser` returns the reply and the table of sockets.
unfoldable pub exit_user : Server → List Bytes → ℕ → List ℕ → Result (Reply × List ℕ)
exit_user s tokens fd client_socket_list =
    if not (length tokens == 1)
    then ok
        (record { server = s; response = text "Usage: exit\n"; events = [] }, client_socket_list)
    else if is_logged_in s fd
    then leave_after fd client_socket_list (logout_user s tokens fd)
    else ok (leave fd client_socket_list (record { server = s; response = []; events = [] }) [])

unfoldable pub get_whoami : Server → List Bytes → ℕ → Result Reply
get_whoami s tokens fd =
    if not (length tokens == 1)
    then reply s (text "Usage: whoami\n")
    else if not (is_logged_in s fd)
    then please_login s
    else do p ← client_at s fd; reply s ((s.heap p).username ++ text "\n")

unfoldable pub is_status : Bytes → Bool
is_status status =
    bytes_eq status (text "online")
    || (bytes_eq status (text "offline") || bytes_eq status (text "busy"))

unfoldable pub set_client_status : Server → List Bytes → ℕ → Result Reply
set_client_status s tokens fd =
    if not (length tokens == 2)
    then reply s (text "Usage: set-status <status>\n")
    else if not (is_logged_in s fd)
    then please_login s
    else if not (is_status (word_at tokens 1))
    then reply s (text "set-status failed\n")
    else do
      p ← client_at s fd
      reply (record s { heap = with_status s p (word_at tokens 1) })
          ((s.heap p).username ++ (text " " ++ (word_at tokens 1 ++ text "\n")))

-- `std::sort` of user pointers by name.
unfoldable pub insert_user : (ℕ → User) → ℕ → List ℕ → List ℕ
insert_user heap p [] = p ∷ []
insert_user heap p (q ∷ qs) =
    if bytes_lt (heap q).username (heap p).username then q ∷ insert_user heap p qs else p ∷ q ∷ qs

unfoldable pub sort_users : (ℕ → User) → List ℕ → List ℕ
unfolding insert_user
sort_users heap [] = []
sort_users heap (p ∷ ps) = insert_user heap p (sort_users heap ps)

unfoldable pub show_users : (ℕ → User) → List ℕ → Bytes
show_users heap [] = []
show_users heap (p ∷ ps) =
    (heap p).username ++ (text " " ++ ((heap p).status ++ (text "\n" ++ show_users heap ps)))

abbrev pub list_sorted : Server → Result Reply
list_sorted s = reply s (show_users s.heap s.registered_user)

unfoldable pub list_user : Server → List Bytes → ℕ → Result Reply
list_user s tokens fd =
    if not (length tokens == 1)
    then reply s (text "Usage: list-user\n")
    else if not (is_logged_in s fd)
    then please_login s
    else list_sorted (record s { registered_user = sort_users s.heap s.registered_user })
